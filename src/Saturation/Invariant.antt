-- ===== src/Saturation/Invariant.antt =====
-- What every step of the workers keeps: decisions are made once, and rest on what is stored.
use microservices_demo_nats.Prelude.{
  ℕ, suc, ◌+◌, ◌≤◌, String, ◌≡◌, refl, ap, ◌∙◌, List, [], ◌∷◌, ◌++◌, Option, none, some, length,
  arith,
}
use microservices_demo_nats.Saturation.Evaluation.{Floats}
use microservices_demo_nats.Saturation.Decision.{Progress, Window, Decision, progress_of, decide}
use microservices_demo_nats.Saturation.Coordination.{
  Phase, measuring, collecting, awaiting, timed_out, Returned, set_at, Cluster, put_progress,
  decided, Step, begin_first, begin_other, collect, settle, receive, give_up_collecting,
  give_up_awaiting,
}
use microservices_demo_nats.Saturation.Tables.{
  Table, next_put, next_decision, Reads, Gathers, Extends, Reads-Extends, Gathers-Extends,
  Reads-append, put_at, put_Extends, Behind, Behind-set, Behind-put, set_same, set_other, set_all,
}

zero_plus : (n : ℕ) → 0 + n ≡ n
zero_plus n = omega arith

module _ (fl : Floats) (application_type : String) (workers : ℕ) where
  abbrev pub F : Type 0
  F = fl.Float

  abbrev pub Decisions : Type 0
  Decisions = ℕ → Option (Decision F)

  -- A decision rests on the progress that all workers have stored for its rung, in their order.
  pub record Founded (progress : ℕ → ℕ → Option (Progress fl.Float)) (rung : ℕ)
      (d : Decision fl.Float) : Type 0 where
    pub window : Window fl.Float
    pub previous : Option fl.Float
    pub progresses : List (Progress fl.Float)
    pub reads : Reads (progress rung) 0 progresses
    pub complete : length progresses ≡ workers
    pub decides : (decide fl application_type workers rung window previous progresses).0 ≡ d

  Founded-Extends :
      (t u : Table F) (rung : ℕ) (d : Decision F)
      → Extends t u
      → Founded t rung d
      → Founded u rung d
  Founded-Extends t u rung d e f = record {
    window = f.window;
    previous = f.previous;
    progresses = f.progresses;
    reads = Reads-Extends t u rung 0 f.progresses e f.reads;
    complete = f.complete;
    decides = f.decides;
  }

  abbrev pub AllFounded : Table F → Decisions → Type 0
  AllFounded t decisions = (r : ℕ) (d : Decision F) → decisions r ≡ some d → Founded t r d

  abbrev pub Undecided : Decisions → Phase F → Type 0
  Undecided decisions ph = (r : ℕ) → next_decision ph ≤ r → decisions r ≡ none

  -- What was returned to a worker is the decision that is stored for the rung.
  abbrev pub AllStored : Decisions → List (Returned F) → Type 0
  AllStored decisions [] = Unit
  AllStored decisions (x ∷ xs) = (decisions x.rung ≡ some x.decision) × AllStored decisions xs

  AllStored-set :
      (decisions : Decisions) (rung : ℕ) (d : Decision F) (xs : List (Returned F))
      → decisions rung ≡ none
      → AllStored decisions xs
      → AllStored (set_at decisions rung (some d)) xs
  AllStored-set decisions rung d [] free h = tt
  AllStored-set decisions rung d (x ∷ xs) free h = (
    set_other decisions rung (some d) x.rung (λ e. cc (h.0, free, ap decisions e)) ∙ h.0,
    AllStored-set decisions rung d xs free h.1,
  )

  pub record Sound (s : Cluster F) : Type 0 where
    pub behind : Behind s.progress s.phase
    pub undecided : Undecided s.decision (s.phase 0)
    pub gathers : Gathers s.progress (s.phase 0)
    pub founded : AllFounded s.progress s.decision
    pub stored : AllStored s.decision s.returned

  -- Worker 0 or another moves on, and the tables stay.
  Undecided-set :
      (decisions : Decisions) (phase : ℕ → Phase F) (k : ℕ) (new : Phase F)
      → Undecided decisions (phase 0)
      → next_decision (phase k) ≤ next_decision new
      → Undecided decisions (set_at phase k new 0)
  Undecided-set decisions phase k new u le =
      set_all phase k new (λ j ph. (j ≡ 0) → Undecided decisions ph) 0
        (λ e r h.
          let first : next_decision (phase 0) ≤ next_decision new = rw e at le in
          u r (omega (arith, first, h)))
        (λ other e. u) refl

  Gathers-set :
      (t : Table F) (phase : ℕ → Phase F) (k : ℕ) (new : Phase F)
      → Gathers t (phase 0)
      → Gathers t new
      → Gathers t (set_at phase k new 0)
  Gathers-set t phase k new g h = set_all phase k new (λ j ph. Gathers t ph) 0 h (λ other. g)

  -- A worker stores its progress.
  put_Sound :
      (s : Cluster F) (index rung : ℕ) (w : Window F) (new : Phase F)
      → s.phase index ≡ measuring rung
      → next_put new ≡ suc rung
      → rung ≤ next_decision new
      → ((t : Table F) → Gathers t new)
      → Sound s
      → Sound (record (put_progress rung index w s) { phase = set_at s.phase index new })
  put_Sound s index rung w new here up later empty q = record {
    behind = Behind-put s.progress s.phase index rung _ new q.behind here up;
    undecided = Undecided-set s.decision s.phase index new q.undecided (rw here later);
    gathers =
        Gathers-set _ s.phase index new (Gathers-Extends s.progress _ (s.phase 0) grows q.gathers)
          (empty _);
    founded = λ r d h. Founded-Extends s.progress _ r d grows (q.founded r d h);
    stored = q.stored;
  }
    where
      free : s.progress rung index ≡ none
      free = q.behind index rung (rw here (omega arith))

      grows : Extends s.progress (put_at s.progress rung index (progress_of index w))
      grows = put_Extends s.progress rung index (progress_of index w) free

  -- A worker moves on, and the tables stay.
  move_Sound :
      (s : Cluster F) (index : ℕ) (new : Phase F) (log : List (Returned F))
      → next_put (s.phase index) ≤ next_put new
      → next_decision (s.phase index) ≤ next_decision new
      → Gathers s.progress new
      → AllStored s.decision log
      → Sound s
      → Sound (record s { phase = set_at s.phase index new; returned = log })
  move_Sound s index new log puts decisions gathered stored q = record {
    behind = Behind-set s.progress s.phase index new q.behind puts;
    undecided = Undecided-set s.decision s.phase index new q.undecided decisions;
    gathers = Gathers-set s.progress s.phase index new q.gathers gathered;
    founded = q.founded;
    stored = stored;
  }

  -- Worker 0 decides, once for each rung.
  settle_Sound :
      (s : Cluster F) (rung : ℕ) (w : Window F) (ps : List (Progress F))
      → s.phase 0 ≡ collecting rung w ps
      → length ps ≡ workers
      → Sound s
      → Sound (decided fl application_type workers rung w ps s)
  settle_Sound s rung w ps here all q = record {
    behind =
        Behind-set s.progress s.phase 0 (measuring (suc rung)) q.behind (rw here (omega arith));
    undecided = λ r h.
        let next : suc rung ≤ r = h in
        set_other s.decision rung (some d) r (λ e. absurd (omega (arith, next, e)))
        ∙ q.undecided r (rw here (omega (arith, next)));
    gathers = Gathers-set s.progress s.phase 0 (measuring (suc rung)) q.gathers tt;
    founded = λ r e.
        set_all s.decision rung (some d) (λ j o. o ≡ some e → Founded s.progress j e) r
          (λ same. record {
            window = w;
            previous = s.previous_goodput;
            progresses = ps;
            reads = gathered;
            complete = all;
            decides = cc;
          })
          (λ other h. q.founded r e h);
    stored = (
      set_same s.decision rung (some d),
      AllStored-set s.decision rung d s.returned free q.stored,
    );
  }
    where
      d : Decision F
      d = (decide fl application_type workers rung w s.previous_goodput ps).0

      free : s.decision rung ≡ none
      free = q.undecided rung (rw here (omega arith))

      gathered : Reads (s.progress rung) 0 ps
      gathered = rw here at q.gathers

  pub step_Sound : (s t : Cluster F) → Step fl application_type workers s t → Sound s → Sound t
  step_Sound s _ (begin_first rung w here) q =
      put_Sound s 0 rung w (collecting rung w []) here refl (omega arith) (λ t. tt) q
  step_Sound s _ (begin_other index rung w other here) q =
      put_Sound s index rung w (awaiting rung) here refl (omega arith) (λ t. tt) q
  step_Sound s _ (collect rung w ps p here more found) q =
      move_Sound s 0 (collecting rung w (ps ++ p ∷ [])) s.returned (rw here (omega arith))
        (rw here (omega arith))
        (Reads-append (s.progress rung) 0 ps p (rw here at q.gathers)
          (rw (zero_plus (length ps)) found))
        q.stored q
  step_Sound s _ (settle rung w ps here all) q = settle_Sound s rung w ps here all q
  step_Sound s _ (receive index rung d here found) q =
      move_Sound s index (measuring (suc rung)) _ (rw here (omega arith)) (rw here (omega arith)) tt
        (found, q.stored) q
  step_Sound s _ (give_up_collecting rung w ps here) q =
      move_Sound s 0 (timed_out rung) s.returned (rw here (omega arith)) (rw here (omega arith)) tt
        q.stored q
  step_Sound s _ (give_up_awaiting index rung here) q =
      move_Sound s index (timed_out rung) s.returned (rw here (omega arith)) (rw here (omega arith))
        tt q.stored q
