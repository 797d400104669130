-- ===== src/Dynamic/ThroughEdge/Paths/Simple.antt =====
-- The cycles through an edge between two different vertices visit no vertex twice.
use cycle_enumeration_gpu.Prelude.{
  ℕ, ◌≡◌, sym, false, Bool, List, ◌∷◌, mem, inl, inr, ◌∈◌, Distinct,
}
use cycle_enumeration_gpu.Sequential.CycleUnion.Queue.{mem-∈}
use cycle_enumeration_gpu.Dynamic.ThroughEdge.Paths.{Trail, IsThrough}

new_vertex : (w : ℕ) (p : List ℕ) → mem w p ≡ false → ¬ (w ∈ p)
new_vertex w p new m = cc (mem-∈ w p m, new)

module _ (next : ℕ → List ℕ) (forbidden : ℕ → ℕ → Bool) (u most v : ℕ) (apart : ¬ (u ≡ v)) where
  Distinct-Trail : (p : List ℕ) → Trail next forbidden u most v p → Distinct p
  Distinct-Trail p Trail.first =
      ((λ m. elim m [ inl e ↦ apart (sym e) | inr none ↦ none ]), ((λ none. none), tt))
  Distinct-Trail p (Trail.further {w} {c} {p = q} before edge free new short) =
      (new_vertex w (c ∷ q) new, Distinct-Trail (c ∷ q) before)

  pub Distinct-IsThrough : (c : List ℕ) → IsThrough next forbidden u most v c → Distinct c
  Distinct-IsThrough c (IsThrough.back {c = x} {p} trail edge free short) =
      Distinct-Trail (x ∷ p) trail
