-- ===== src/Sequential/Closing/Walks.antt =====
-- The walks that close a cycle in time, and what a closed vertex promises of them.
use cycle_enumeration_gpu.Prelude.{
  ℕ, ◌≤◌, ◌<◌, ◌≡◌, refl, subst, ◌∙◌, true, Option, none, some, length, get_elem?, set, length-set,
  inl, inr, Bool-cases, arith, ◌∈◌,
}
use cycle_enumeration_gpu.Prelude.Int.{ℤ, ◌≤ℤ◌, ◌<ℤ◌, ltb_ℤ}
use cycle_enumeration_gpu.Core.GraphView.{AdjacencyEntry, GraphView}
use cycle_enumeration_gpu.Core.GraphView.Rows.{outgoing_of}
use cycle_enumeration_gpu.Core.Timestamp.{value_at}
use cycle_enumeration_gpu.Sequential.Closing.{Closing, is_closed, close}
use cycle_enumeration_gpu.Sequential.Closing.Loops.{set_cases}

module _ (g : GraphView) (root : ℕ) (last : ℤ) where
  -- An event of an edge after a time and within the window.
  pub record Event (now : ℤ) (e : AdjacencyEntry) (i : ℕ) : Type 0 where
    pub after_begin : e.timestamp_begin ≤ i
    pub before_end : i < e.timestamp_end
    pub late : now <ℤ value_at g.timestamps i
    pub early : value_at g.timestamps i ≤ℤ last

  -- A walk of at least one edge to the root, whose edges happen one after the other.
  pub data Closes : ℤ → ℕ → Type 0 where
    arrives :
        {now : ℤ} {v : ℕ} (e : AdjacencyEntry) (i : ℕ)
        → e ∈ outgoing_of g v
        → Event now e i
        → e.vertex ≡ root
        → Closes now v
    goes :
        {now : ℤ} {v : ℕ} (e : AdjacencyEntry) (i : ℕ)
        → e ∈ outgoing_of g v
        → Event now e i
        → Closes (value_at g.timestamps i) e.vertex
        → Closes now v

  sooner : (a b : ℤ) (e : AdjacencyEntry) (i : ℕ) → a ≤ℤ b → Event b e i → Event a e i
  sooner a b e i h x = record {
    after_begin = x.after_begin;
    before_end = x.before_end;
    late = omega (arith, x.late);
    early = x.early;
  }

  pub Closes-sooner : (a b : ℤ) (v : ℕ) → a ≤ℤ b → Closes b v → Closes a v
  Closes-sooner a b v h (Closes.arrives e i m x r) = Closes.arrives e i m (sooner a b e i h x) r
  Closes-sooner a b v h (Closes.goes e i m x r) = Closes.goes e i m (sooner a b e i h x) r

  -- A vertex is closed only from a time on at which no walk leads back.
  pub record Remembers (c : Closing) : Type 0 where
    pub size : length c ≡ g.vertex_count
    pub closed : (v : ℕ) (t : ℤ) → get_elem? c v ≡ some (some t) → ¬ Closes t v

  pub is_closed-Closes :
      (o : Option ℤ) (v : ℕ) (now : ℤ)
      → ((t : ℤ) → o ≡ some t → ¬ Closes t v)
      → is_closed o now ≡ true
      → ¬ Closes now v
  is_closed-Closes none v now h e walk = absurd (cc e)
  is_closed-Closes (some t) v now h e walk =
      h t refl (Closes-sooner t now v (ground (arith, e)) walk)

  set-Remembers :
      (c : Closing) (v : ℕ) (now : ℤ)
      → Remembers c
      → ¬ Closes now v
      → Remembers (set c v (some now))
  set-Remembers c v now k h = record {
    size = length-set c v (some now) ∙ k.size;
    closed = λ w t e walk. elim (set_cases c v w (some now) (some t) e) [
      | inl (same, time) ↦
          let time' : t ≡ now = cc time in
          h (subst (λ u. Closes u v) time' (subst (λ u. Closes t u) same walk))
      | inr old ↦ k.closed w t old walk
    ];
  }

  pub close-Remembers :
      (c : Closing) (v : ℕ) (o : Option ℤ) (now : ℤ)
      → Remembers c
      → ¬ Closes now v
      → Remembers (close v o now c)
  close-Remembers c v none now k h = set-Remembers c v now k h
  close-Remembers c v (some t) now k h = elim (Bool-cases (ltb_ℤ now t)) [
    | inl earlier ↦ rw earlier (set-Remembers c v now k h)
    | inr later_ ↦ rw later_ k
  ]
