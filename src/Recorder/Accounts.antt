-- ===== src/Recorder/Accounts.antt =====
-- The recorder's count of outstanding orders, where the orders are those of checkouts.
use mathlib.Core.List.{append-nil, append_assoc}
use microservices_demo_nats.Prelude.{
  ℕ, suc, ◌+◌, String, ◌≡◌, refl, sym, ◌∙◌, ap, Bool, true, false, List, [], ◌∷◌, ◌++◌, map, sum,
  str_eq, if◌then◌else◌, arith,
}
use microservices_demo_nats.Parallel.Records.{Record}
use microservices_demo_nats.Parallel.Merge.{rebase, is_accepted, counted}
use microservices_demo_nats.Parallel.Interleaving.{Takes, here, there, Interleaves, over, next}
use microservices_demo_nats.Parallel.Interleaving.Totals.{Interleaves-map, Interleaves-sum}
use microservices_demo_nats.Parallel.Outstanding.{
  Covered, settled, up, down, EachCovered, Balanced, Interleaves-Covered, Covered-Balanced,
  from_nothing,
}
use microservices_demo_nats.Checkout.Context.{accepted_order, terminal_order}
use microservices_demo_nats.Checkout.Outcome.Settles.{records_of}
use microservices_demo_nats.Recorder.{Recorder}
use microservices_demo_nats.Recorder.Outstanding.{
  Told, tell, tell_all, line_of, KeepsApart, Apart, tell-line, IsLane, EachLane,
}

data Lane (outcome : String) : Bool → List Told → Type 0 where
  silent : Lane outcome false []
  told :
      {t u : Told}
      → t.what ≡ accepted_order
      → u.what ≡ terminal_order outcome
      → Lane outcome true (t ∷ u ∷ [])

lane_view :
    (b : Bool) (outcome : String) (lane : List Told)
    → map (λ (t : Told). t.what) lane ≡ records_of b outcome
    → Lane outcome b lane
lane_view false outcome [] h = silent
lane_view false outcome (t ∷ lane) h = absurd (cc)
lane_view true outcome [] h = absurd (cc)
lane_view true outcome (t ∷ []) h = absurd (cc)
lane_view true outcome (t ∷ u ∷ []) h = told (cc) (cc)
lane_view true outcome (t ∷ u ∷ v ∷ lane) h = absurd (cc)

view : (lane : List Told) (l : IsLane lane) → Lane l.outcome l.accepted lane
view lane l = lane_view l.accepted l.outcome lane l.whole

module _ (lower : String → String) where
  abbrev AllApart : List Told → Type 0
  AllApart [] = Unit
  AllApart (t ∷ ts) = Apart lower t.what × AllApart ts

  abbrev acceptances : Told → ℕ
  acceptances t = if is_accepted (line_of lower t) then 1 else 0

  abbrev ends : Told → ℕ
  ends t = if is_accepted (line_of lower t) then 0 else 1

  abbrev EachApart : List (List Told) → Type 0
  EachApart [] = Unit
  EachApart (l ∷ lanes) = AllApart l × EachApart lanes

  Takes-Apart :
      {t : Told} {lanes rest : List (List Told)}
      → Takes t lanes rest
      → EachApart lanes
      → Apart lower t.what × EachApart rest
  Takes-Apart here h = (h.0.0, (h.0.1, h.1))
  Takes-Apart (there q) h = let (apart, rest) = Takes-Apart q h.1 in (apart, (h.0, rest))

  Interleaves-Apart :
      {lanes : List (List Told)} {ts : List Told}
      → Interleaves lanes ts
      → EachApart lanes
      → AllApart ts
  Interleaves-Apart (over e) h = tt
  Interleaves-Apart (next q i) h =
      let (apart, rest) = Takes-Apart q h in (apart, Interleaves-Apart i rest)

  view-AllApart :
      (outcome : String) (b : Bool) (lane : List Told)
      → Lane outcome b lane
      → (b ≡ true → str_eq (lower outcome) "accepted" ≡ false)
      → AllApart lane
  view-AllApart outcome _ _ silent h = tt
  view-AllApart outcome _ _ (told first last) h = rw first (rw last (tt, (h refl, tt)))

  view-Covered :
      (outcome : String) (b : Bool) (lane : List Told)
      → Lane outcome b lane
      → (b ≡ true → str_eq (lower outcome) "accepted" ≡ false)
      → Covered 0 (map (line_of lower) lane)
  view-Covered outcome _ _ silent h = settled
  view-Covered outcome _ _ (told first last) h =
      up (rw first refl) (down (rw last (h refl)) settled)

  view_even :
      (outcome : String) (b : Bool) (lane : List Told)
      → Lane outcome b lane
      → (b ≡ true → str_eq (lower outcome) "accepted" ≡ false)
      → sum (map acceptances lane) ≡ sum (map ends lane)
  view_even outcome _ _ silent h = refl
  view_even outcome _ _ (told first last) h = rw first (rw last (rw (h refl) refl))

module _ (lower : String → String) (keeps : KeepsApart lower) where
  lanes-Apart : (lanes : List (List Told)) → EachLane lanes → EachApart lower lanes
  lanes-Apart [] h = tt
  lanes-Apart (l ∷ lanes) h = (
    view-AllApart lower h.0.outcome h.0.accepted l (view l h.0)
        (λ e. keeps h.0.outcome (h.0.known e)),
    lanes-Apart lanes h.1,
  )

  lanes-Covered :
      (lanes : List (List Told)) → EachLane lanes → EachCovered (map (map (line_of lower)) lanes)
  lanes-Covered [] h = tt
  lanes-Covered (l ∷ lanes) h = (
    view-Covered lower h.0.outcome h.0.accepted l (view l h.0)
        (λ e. keeps h.0.outcome (h.0.known e)),
    lanes-Covered lanes h.1,
  )

  tell_all-rebase :
      (ts : List Told) (r : Recorder)
      → AllApart lower ts
      → r.is_open ≡ true
      → (tell_all lower ts r).outstanding
        ≡ r.outstanding ++ rebase r.outstanding_count (map (line_of lower) ts)
  unfolding tell_all rebase
  tell_all-rebase [] r apart is_open = sym (append-nil r.outstanding)
  tell_all-rebase (t ∷ ts) r apart is_open =
      let (outstanding, count, still) = tell-line lower t r apart.0 is_open in
      tell_all-rebase ts (tell lower t r) apart.1 still
      ∙ rw outstanding (rw count (append_assoc r.outstanding _ _))

  lanes_even :
      (lanes : List (List Told))
      → EachLane lanes
      → sum (map (λ l. sum (map (acceptances lower) l)) lanes)
        ≡ sum (map (λ l. sum (map (ends lower) l)) lanes)
  lanes_even [] h = refl
  lanes_even (l ∷ lanes) h =
      let even =
        view_even lower h.0.outcome h.0.accepted l (view l h.0)
          (λ e. keeps h.0.outcome (h.0.known e)) in
      omega (arith, even, lanes_even lanes h.1)

  -- The subtraction's floor is not reached.
  tell_all-count :
      (c : ℕ) (ts : List Told) (r : Recorder)
      → AllApart lower ts
      → Covered c (map (line_of lower) ts)
      → r.is_open ≡ true
      → r.outstanding_count ≡ c
      → (tell_all lower ts r).outstanding_count + sum (map (ends lower) ts)
        ≡ c + sum (map (acceptances lower) ts)
  unfolding tell_all
  tell_all-count c [] r apart covered is_open same = omega (arith, same)
  tell_all-count c (t ∷ ts) r apart (up e more) is_open same =
      let (outstanding, count, still) = tell-line lower t r apart.0 is_open in
      let rest =
        tell_all-count (suc c) ts (tell lower t r) apart.1 more still
          (count ∙ rw e (ap suc same)) in
      rw e (omega (arith, rest))
  tell_all-count _ (t ∷ ts) r apart (down {c = c} e more) is_open same =
      let (outstanding, count, still) = tell-line lower t r apart.0 is_open in
      let rest =
        tell_all-count c ts (tell lower t r) apart.1 more still
          (count ∙ rw e (omega (arith, same))) in
      rw e (omega (arith, rest))

  covered_rebase : (c total : ℕ) (rs : List Record) → Covered c rs → Covered c (rebase total rs)
  unfolding rebase
  covered_rebase c total _ settled = settled
  covered_rebase c total _ (up {r = r} {rs = rs} e more) =
      up e (covered_rebase (suc c) (counted r total) rs more)
  covered_rebase _ total _ (down {c = c} {r = r} {rs = rs} e more) =
      down e (covered_rebase c (counted r total) rs more)

  -- Many clients tell one recorder, which is open and has recorded nothing, of their orders: each tells
  -- nothing, or an acceptance and then one of the known outcomes, and all do so in any order between
  -- them; in lower case no known outcome is written like an acceptance. Then the number in each line of
  -- the recorder's file is the number of acceptances up to it less that of the other events, so the
  -- floor at 0 is never met; at the end no order is outstanding; and the file is one that the merge of
  -- the workers' files can count, since nothing in it ends before it is accepted.
  pub recorder-Accounts :
      (lanes : List (List Told)) (ts : List Told) (r : Recorder)
      → EachLane lanes
      → Interleaves lanes ts
      → r.is_open ≡ true
      → r.outstanding ≡ []
      → r.outstanding_count ≡ 0
      → Balanced 0 0 (tell_all lower ts r).outstanding
        × Covered 0 (tell_all lower ts r).outstanding
        × ((tell_all lower ts r).outstanding_count ≡ 0)
  recorder-Accounts lanes ts r each interleaved is_open fresh from_zero =
      let q = from_nothing _ (lanes-Covered lanes each) in
      let covered : Covered 0 (map (line_of lower) ts) =
        Interleaves-Covered q.counts 0 _ _ (Interleaves-map (line_of lower) interleaved) q.covers
          q.no_more in
      let apart = Interleaves-Apart lower interleaved (lanes-Apart lanes each) in
      let file = tell_all-rebase ts r apart is_open in
      let whole : (tell_all lower ts r).outstanding ≡ rebase 0 (map (line_of lower) ts) =
        file ∙ rw fresh (rw from_zero refl) in
      let count = tell_all-count 0 ts r apart covered is_open from_zero in
      (
        rw whole (Covered-Balanced 0 0 0 _ covered refl),
        rw whole (covered_rebase 0 0 _ covered),
        omega (
          arith,
          count,
          Interleaves-sum (acceptances lower) interleaved,
          Interleaves-sum (ends lower) interleaved,
          lanes_even lanes each,
        ),
      )
