-- ===== src/Dynamic/UpdateOpenmp/Phases.antt =====
-- What a phase adds to the differences, whoever counts which change.
use cycle_enumeration_gpu.Prelude.{
  ℕ, suc, ◌+◌, ◌-◌, ◌≤◌, ◌<◌, ◌≡◌, refl, sym, ap, ◌∙◌, fun_ext, Bool, false, List, [], ◌∷◌, ◌++◌,
  length, length-replicate, set, replicate, get_elem?, get_or, get_elem?-eq-get_or, some,
  range_from, All, arith, Result, ok, err, ◌>>=◌, for_each,
}
use cycle_enumeration_gpu.Prelude.Int.{ℤ, pos}
use cycle_enumeration_gpu.Core.GraphView.Csr.{collect, concat}
use cycle_enumeration_gpu.Dynamic.EdgeChange.{EdgeChange}
use cycle_enumeration_gpu.Dynamic.DirectedGraph.{DirectedGraph}
use cycle_enumeration_gpu.Dynamic.ThroughEdge.{Scan, ChangedEdgeIndex, count_cycles_through_edge}
use cycle_enumeration_gpu.Dynamic.ThroughEdge.Counts.{bump_all, length-bump_all}
use cycle_enumeration_gpu.Dynamic.ThroughEdge.Buffer.{Clear}
use cycle_enumeration_gpu.Dynamic.ThroughEdge.Owned.{IsClosed, counted, count_cycles_returns}
use cycle_enumeration_gpu.Dynamic.Update.{
  Sign, Phase, ◌+ll◌, signed, add_count, accumulate_from, to_long_long,
}
use cycle_enumeration_gpu.Dynamic.Update.Sums.{
  Buckets, zeros-Buckets, add_all-Buckets, add_all, add_all-zero, add_all-zeros, length-add_all,
  for_each-add_all, add_all-add_all, sum_of, sum_of-append,
}
use cycle_enumeration_gpu.Openmp.Merge.Sums.{All-append}
use cycle_enumeration_gpu.Dynamic.UpdateOpenmp.{
  Share, deal, add_partial_at, count_owner, count_share, add_partial,
}

add_count_lem :
    (sign : Sign) (counts : List ℕ) (bound : ℕ)
    → length counts ≡ bound
    → (k : ℕ) (delta : List ℤ) → k < bound
    → length delta ≡ bound
    → add_count sign counts k delta
      ≡ ok (set delta k (get_or delta k (pos 0) +ll signed sign (to_long_long (get_or counts k 0))))
unfolding add_count
add_count_lem sign counts bound lc k delta lt ld =
    rw
      (
        get_elem?-eq-get_or counts k 0 (omega (arith, lc)),
        get_elem?-eq-get_or delta k (pos 0) (omega (arith, ld)),
      )
      refl

then_returns :
    (r : Result (List ℤ)) (mk : List ℤ → Phase) (go go' : Phase → Result Phase)
    → ((p : Phase) → go p ≡ go' p)
    → (r >>= λ d. go (mk d)) ≡ ((r >>= λ d. ok (mk d)) >>= go')
then_returns (ok d) mk go go' same = same (mk d)
then_returns (err e) mk go go' same = refl

-- A round and what follows it, whichever way they are put together.
round_then :
    (r : Result Scan) (f : Scan → Result (List ℤ)) (mk : Scan → List ℤ → Phase)
    (go go' : Phase → Result Phase)
    → ((p : Phase) → go p ≡ go' p)
    → (r >>= λ s. f s >>= λ d. go (mk s d)) ≡ ((r >>= λ s. f s >>= λ d. ok (mk s d)) >>= go')
round_then (ok s) f mk go go' same = then_returns (f s) (mk s) go go' same
round_then (err e) f mk go go' same = refl

-- A change for ids that have none.
abbrev pub no_change : EdgeChange
no_change = record { source = 0; target = 0 }

module _ (g : DirectedGraph) (changes : List EdgeChange) (most : ℕ) (sign : Sign)
    (index : ChangedEdgeIndex) where
  -- What the change with an id adds at a length.
  unfoldable pub amount : ℕ → ℕ → ℤ
  amount owner k =
      let c = get_or changes owner no_change in
      signed sign (
        to_long_long (
          get_or (bump_all (counted g c.source c.target owner index most) (replicate (suc most) 0))
            k 0))

  module _ (closed : IsClosed g) (two : 2 ≤ most) where
    count_owner_lem :
        (owner : ℕ) (p : Phase)
        → owner < length changes
        → length p.delta ≡ suc most
        → Clear p.visited
        → (size : ℕ) × (count_owner g changes most sign index owner p
            ≡ ok (record {
              visited = replicate size false;
              delta = add_all (amount owner) 2 (most - 1) p.delta;
            }))
    unfolding count_owner amount
    count_owner_lem owner p h l clear =
        let c = get_or changes owner no_change in
        let counts =
          bump_all (counted g c.source c.target owner index most) (replicate (suc most) 0) in
        let lc : length counts ≡ suc most =
          length-bump_all (counted g c.source c.target owner index most) (replicate (suc most) 0)
          ∙ length-replicate (suc most) 0 in
        let (size, run) =
          count_cycles_returns g c.source c.target owner index most
            (record { visited = p.visited; counts = replicate (suc most) 0 }) closed
            (length-replicate (suc most) 0) clear in
        let adds : for_each (add_count sign counts) (range_from 2 (most - 1)) p.delta
            ≡ ok (
                add_all (λ k. signed sign (to_long_long (get_or counts k 0))) 2 (most - 1)
                  p.delta) =
          for_each-add_all (add_count sign counts)
            (λ k. signed sign (to_long_long (get_or counts k 0))) (suc most)
            (add_count_lem sign counts (suc most) lc) 2 (most - 1) p.delta (omega arith) l in
        (size, rw (get_elem?-eq-get_or changes owner no_change h, run, adds))

    pub count_owners_lem :
        (owners : List ℕ) (p : Phase)
        → All (λ owner. owner < length changes) owners
        → Buckets (suc most) p.delta
        → Clear p.visited
        → (size : ℕ) × (for_each (count_owner g changes most sign index) owners p
            ≡ ok (record {
              visited = replicate size false;
              delta = add_all (λ k. sum_of (λ owner. amount owner k) owners) 2 (most - 1) p.delta;
            }))
    unfolding sum_of
    count_owners_lem [] p a l (size, e) =
        (size, cc (e, add_all-zero 2 (most - 1) (suc most) p.delta (omega (arith, two)) l))
    count_owners_lem (owner ∷ owners) p a l clear =
        let (size, one) = count_owner_lem owner p a.0 l.size clear in
        let (size', rest) =
          count_owners_lem owners
            (record {
              visited = replicate size false;
              delta = add_all (amount owner) 2 (most - 1) p.delta;
            })
            a.1 (add_all-Buckets (amount owner) 2 (most - 1) (suc most) p.delta (omega arith) l)
            (size, refl) in
        (
          size',
          rw (one, rest)
              (ap
                (λ (delta : List ℤ). ok (record { visited = replicate size' false; delta = delta }))
                (add_all-add_all (amount owner) (λ k. sum_of (λ i. amount i k) owners) 2 (most - 1)
                  p.delta (omega (arith, l.size, two)))),
        )

    -- A phase that one thread runs, the ids in order.
    pub accumulate_from_lem :
        (owner : ℕ) (cs : List EdgeChange) (p : Phase)
        → ((k : ℕ) → get_elem? changes (owner + k) ≡ get_elem? cs k)
        → accumulate_from g index most sign owner cs p
          ≡ for_each (count_owner g changes most sign index) (range_from owner (length cs)) p
    unfolding accumulate_from count_owner
    accumulate_from_lem owner [] p same = refl
    accumulate_from_lem owner (c ∷ cs) p same =
        let here : get_elem? changes owner ≡ some c =
          ap (get_elem? changes) (omega arith) ∙ same 0 in
        rw here (
          round_then
            (count_cycles_through_edge g c.source c.target owner index most
              (record { visited = p.visited; counts = replicate (suc most) 0 }))
            (λ s. for_each (add_count sign s.counts) (range_from 2 (most - 1)) p.delta)
            (λ s delta. record { visited = s.visited; delta = delta })
            (accumulate_from g index most sign (suc owner) cs)
            (for_each (count_owner g changes most sign index) (range_from (suc owner) (length cs)))
            (λ q.
              accumulate_from_lem (suc owner) cs q
                (λ k. ap (get_elem? changes) (omega arith) ∙ same (suc k))))

    share_lem :
        (buffer : List Bool) (ids : List ℕ)
        → All (λ owner. owner < length changes) ids
        → Clear buffer
        → (size : ℕ) × (count_share g changes most sign index (buffer, ids)
            ≡ ok (record {
              visited = replicate size false;
              delta =
                  add_all
                    (λ k. sum_of (λ owner. amount owner k) ids)
                    2
                    (most - 1)
                    (replicate (suc most) (pos 0));
            }))
    unfolding count_share
    share_lem buffer ids a clear =
        count_owners_lem ids (record { visited = buffer; delta = replicate (suc most) (pos 0) }) a
          (zeros-Buckets (suc most)) clear

    add_partial_lem :
        (p : Phase) (delta : List ℤ)
        → length p.delta ≡ suc most
        → length delta ≡ suc most
        → add_partial g changes most sign p delta
          ≡ ok (add_all (λ k. get_or p.delta k (pos 0)) 2 (most - 1) delta)
    unfolding add_partial add_partial_at
    add_partial_lem p delta lp ld =
        for_each-add_all (add_partial_at p.delta) (λ k. get_or p.delta k (pos 0)) (suc most)
          (λ k d lt l. rw (
            get_elem?-eq-get_or p.delta k (pos 0) (omega (arith, lp)),
            get_elem?-eq-get_or d k (pos 0) (omega (arith, l)),
          ))
          2 (most - 1) delta (omega arith) ld

    -- What the threads leave.
    pub record Locals (run : Result (List Phase)) (ids : List ℕ) (delta : List ℤ) : Type 0 where
      pub left : List Phase
      pub returned : run ≡ ok left
      pub clear : All (λ (p : Phase). Clear p.visited) left
      pub added :
          for_each (add_partial g changes most sign) left delta
          ≡ ok (add_all (λ k. sum_of (λ owner. amount owner k) ids) 2 (most - 1) delta)

    -- One more thread.
    one_more :
        (buffer : List Bool) (ids : List ℕ) (shares : List Share) (others : List ℕ) (delta : List ℤ)
        → Clear buffer
        → All (λ owner. owner < length changes) ids
        → length delta ≡ suc most
        → Locals
            (collect (count_share g changes most sign index) shares)
            others
            (add_all (λ k. sum_of (λ owner. amount owner k) ids) 2 (most - 1) delta)
        → Locals
            (collect (count_share g changes most sign index) ((buffer, ids) ∷ shares))
            (ids ++ others)
            delta
    unfolding collect
    one_more buffer ids shares others delta clear a l rest =
        let here = λ (k : ℕ). sum_of (λ owner. amount owner k) ids in
        let there = λ (k : ℕ). sum_of (λ owner. amount owner k) others in
        let (size, mine) = share_lem buffer ids a clear in
        let p : Phase = record {
          visited = replicate size false;
          delta = add_all here 2 (most - 1) (replicate (suc most) (pos 0));
        } in
        let lp : length p.delta ≡ suc most =
          length-add_all here 2 (most - 1) (replicate (suc most) (pos 0))
          ∙ length-replicate (suc most) (pos 0) in
        let partial =
          add_partial_lem p delta lp l
          ∙ ap ok (add_all-zeros here 2 (most - 1) (suc most) delta (omega arith) l) in
        let whole : add_all there 2 (most - 1) (add_all here 2 (most - 1) delta)
            ≡ add_all (λ k. sum_of (λ owner. amount owner k) (ids ++ others)) 2 (most - 1) delta =
          add_all-add_all here there 2 (most - 1) delta (omega (arith, l))
          ∙ ap (λ (f : ℕ → ℤ). add_all f 2 (most - 1) delta)
              (fun_ext (λ k. sym (sum_of-append (λ owner. amount owner k) ids others))) in
        record {
          left = p ∷ rest.left;
          returned = rw (mine, rest.returned);
          clear = ((size, refl), rest.clear);
          added = rw partial (rest.added ∙ ap ok whole);
        }

    pub locals_lem :
        (schedule : List (List ℕ)) (buffers : List (List Bool)) (delta : List ℤ)
        → All Clear buffers
        → All (λ owner. owner < length changes) (concat schedule)
        → Buckets (suc most) delta
        → Locals
            (collect (count_share g changes most sign index) (deal buffers schedule))
            (concat schedule)
            delta
    unfolding collect concat sum_of
    locals_lem [] buffers delta clear a l = record {
      left = [];
      returned = refl;
      clear = tt;
      added = ap ok (sym (add_all-zero 2 (most - 1) (suc most) delta (omega (arith, two)) l));
    }
    locals_lem (ids ∷ rest) [] delta clear a l =
        let (mine, others) = All-append (λ owner. owner < length changes) ids (concat rest) a in
        one_more [] ids (deal [] rest) (concat rest) delta (0, refl) mine l.size
          (locals_lem rest [] _ tt others
            (add_all-Buckets _ 2 (most - 1) (suc most) delta (omega arith) l))
    locals_lem (ids ∷ rest) (b ∷ bs) delta clear a l =
        let (mine, others) = All-append (λ owner. owner < length changes) ids (concat rest) a in
        one_more b ids (deal bs rest) (concat rest) delta clear.0 mine l.size (
          locals_lem rest bs _ clear.1 others
            (add_all-Buckets _ 2 (most - 1) (suc most) delta (omega arith) l))
