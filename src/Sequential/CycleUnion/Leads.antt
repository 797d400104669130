-- ===== src/Sequential/CycleUnion/Leads.antt =====
-- Reaching a vertex over edges with an event in the window.
use cycle_enumeration_gpu.Prelude.{
  ℕ, ◌≡◌, refl, sym, ap, subst, true, List, [], ◌∷◌, inl, inr, Bool-cases, ◌∈◌, All,
}
use mathlib.Core.Logic.{◌⊎◌}
use cycle_enumeration_gpu.Prelude.Int.{ℤ}
use cycle_enumeration_gpu.Core.GraphView.{AdjacencyEntry, GraphView}
use cycle_enumeration_gpu.Sequential.CycleUnion.Queue.{Reaches}
use cycle_enumeration_gpu.Sequential.CycleUnion.Search.{
  HasEvent, IsFine, live, live_lem, live_targets,
}

module _ (ts : List ℤ) (first last : ℤ) (edges : ℕ → List AdjacencyEntry) (start : ℕ) where
  -- Where a walk over edges with an event in the window leads.
  pub data Leads : ℕ → Type 0 where
    here : Leads start
    step :
        {u : ℕ} (e : AdjacencyEntry)
        → Leads u
        → e ∈ edges u
        → HasEvent ts first last e
        → Leads e.vertex

module _ (g : GraphView) (first last : ℤ) where
  live_targets_cases :
      (es : List AdjacencyEntry) (v : ℕ)
      → All (IsFine g first last) es
      → v ∈ live_targets g first last es
      → (e : AdjacencyEntry) × (e ∈ es) × HasEvent g.timestamps first last e × (e.vertex ≡ v)
  unfolding live_targets IsFine
  live_targets_cases [] v a m = absurd m
  live_targets_cases (e ∷ es) v a m = elim (Bool-cases (live g first last e)) [
    | inl lives ↦
        elim (rw lives at m)
          as (λ (_ : (v ≡ e.vertex) ⊎ (v ∈ live_targets g first last es)).
            (e' : AdjacencyEntry) × (e' ∈ e ∷ es)
            × HasEvent g.timestamps first last e'
            × (e'.vertex ≡ v)) [
              | inl same ↦ (e, inl refl, (live_lem g first last e a.0.0).1.0 lives, sym same)
              | inr later ↦
                  let (e', m', event, same) = live_targets_cases es v a.1 later in
                  (e', inr m', event, same)
            ]
    | inr dead ↦
        let (e', m', event, same) = live_targets_cases es v a.1 (rw dead at m) in
        (e', inr m', event, same)
  ]

  mem-live_targets :
      (es : List AdjacencyEntry) (e : AdjacencyEntry)
      → All (IsFine g first last) es
      → e ∈ es
      → HasEvent g.timestamps first last e
      → e.vertex ∈ live_targets g first last es
  unfolding live_targets IsFine
  mem-live_targets [] e a m event = absurd m
  mem-live_targets (x ∷ xs) e a (inl same) event =
      let lives : live g first last x ≡ true =
        (live_lem g first last x a.0.0).1.1 (subst (HasEvent g.timestamps first last) same event) in
      rw lives (inl (ap (λ (y : AdjacencyEntry). y.vertex) same))
  mem-live_targets (x ∷ xs) e a (inr m) event = elim (Bool-cases (live g first last x)) [
    | inl lives ↦ rw lives (inr (mem-live_targets xs e a.1 m event))
    | inr dead ↦ rw dead (mem-live_targets xs e a.1 m event)
  ]

  module _ (row : ℕ → List AdjacencyEntry) (fine : (v : ℕ) → All (IsFine g first last) (row v))
      (start : ℕ) where
    pub Reaches-Leads :
        (w : ℕ)
        → Reaches (λ v. live_targets g first last (row v)) start w
        → Leads g.timestamps first last row start w
    Reaches-Leads w Reaches.here = Leads.here
    Reaches-Leads w (Reaches.step {u} r m) =
        let (e, from, event, same) = live_targets_cases (row u) w (fine u) m in
        subst (Leads g.timestamps first last row start) same
          (Leads.step e (Reaches-Leads u r) from event)

    pub Leads-Reaches :
        (w : ℕ)
        → Leads g.timestamps first last row start w
        → Reaches (λ v. live_targets g first last (row v)) start w
    Leads-Reaches w Leads.here = Reaches.here
    Leads-Reaches w (Leads.step {u} e r from event) =
        Reaches.step (Leads-Reaches u r) (mem-live_targets (row u) e (fine u) from event)
