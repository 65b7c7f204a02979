-- ===== src/Approvals/Authorization/Schedules.antt =====
-- The order in which the goroutines run does not show in what authorizeCandidates returns.
use dingtalk_oa_attachment_b.Prelude.{
  ℕ, ◌≡◌, ◌≢◌, refl, sym, ◌∙◌, ap, subst, ◌⊎◌, inl, inr, false, List, [], ◌∷◌, ◌++◌, Option, none,
  some, map, In, arith, Option-cases, ℕ_discrete,
}
use mathlib.Core.List.{append-nil, append_assoc}
use dingtalk_oa_attachment_b.Domain.Errors.{Fault, Result, ok}
use dingtalk_oa_attachment_b.Domain.Errors.Inversion.{ok_inj}
use dingtalk_oa_attachment_b.Domain.Approval.{Approval}
use dingtalk_oa_attachment_b.Domain.Audit.{AuditEvent}
use dingtalk_oa_attachment_b.Approvals.Candidates.{Candidate}
use dingtalk_oa_attachment_b.Approvals.Authorization.Outcomes.{shown, audited, settle_ok}
use dingtalk_oa_attachment_b.Approvals.Authorization.Results.{
  placed, finish_one_ok, nth-set_at_other, nth-set_at_same, nth_ext, nth-map, nth-map-none,
}
use dingtalk_oa_attachment_b.Approvals.Service.{Service}
use dingtalk_oa_attachment_b.Approvals.Authorization.{
  Item, Request, settle, Group, Answers, ask, run_candidate, run_one, run_all, finish_one, nth,
  collect, waited, started, authorize_candidates,
}

module _ (service : Service) (r : Request) (answers : Answers) (candidates : List Candidate) where
  -- What a candidate alone gives.
  abbrev pub answer_of : Candidate → Result Approval
  answer_of c = answers.before c.process_instance_id

  abbrev pub shown_of : Candidate → Option Item
  shown_of c = shown service r (answer_of c)

  abbrev audited_at : Option Candidate → List AuditEvent
  audited_at none = []
  audited_at (some c) = audited service r c.process_instance_id (answer_of c)

  -- The events of the candidates in the order of a schedule.
  abbrev pub audited_all : List ℕ → List AuditEvent
  audited_all [] = []
  audited_all (n ∷ ns) = audited_at (nth n candidates) ++ audited_all ns

  abbrev target : ℕ → Option (Option Item)
  target j = nth j (map shown_of candidates)

  abbrev Reached : ℕ → Group → Type 0
  Reached j g = nth j g.results ≡ target j

  -- The result at an index is the final one, or there is none yet.
  abbrev Waits : ℕ → Group → Type 0
  Waits j g = (nth j g.results ≡ some none) × (target j ≢ none)

  abbrev Kept : Group → Type 0
  Kept g = (j : ℕ) → Reached j g ⊎ Waits j g

  -- What one goroutine does in a group that does not fail.
  record IsStep (n : ℕ) (g g' : Group) : Type 0 where
    unfailed : g.failed ≡ none
    kept : Kept g → Kept g'
    reaches : (j : ℕ) → Reached j g → Reached j g'
    own : Kept g → Reached n g'
    events : g'.audits ≡ g.audits ++ audited_at (nth n candidates)

  placed_same :
      (n : ℕ) (o : Option Item) (os : List (Option Item))
      → target n ≡ some o
      → (nth n os ≡ target n) ⊎ (nth n os ≡ some none)
      → nth n (placed n o os) ≡ target n
  placed_same n none os t h = ground (arith, t)
  placed_same n (some item) os t h = nth-set_at_same n item os (λ e. ground (arith, t)) ∙ sym t

  placed_other :
      (j n : ℕ) (o : Option Item) (os : List (Option Item))
      → j ≢ n
      → nth j (placed n o os) ≡ nth j os
  placed_other j n none os h = refl
  placed_other j n (some item) os h = nth-set_at_other j n item os h

  -- At every index, from what holds at the own one and at the others.
  at_each : (P : ℕ → Type 0) (n : ℕ) → P n → ((j : ℕ) → j ≢ n → P j) → (j : ℕ) → P j
  at_each P n own others j = elim (ℕ_discrete j n) [
    | yes e ↦ subst P (sym e) own
    | no ne ↦ others j ne
  ]

  idle : (n : ℕ) (g : Group) → nth n candidates ≡ none → g.failed ≡ none → IsStep n g g
  idle n g absent h = record {
    unfailed = h;
    kept = λ k. k;
    reaches = λ j e. e;
    own = λ k. elim (k n) [
      | inl reached ↦ reached
      | inr waits ↦ absurd (waits.1 (nth-map-none shown_of n candidates absent))
    ];
    events = rw absent (sym (append-nil g.audits));
  }

  works :
      (n : ℕ) (g g' : Group) (c : Candidate)
      → nth n candidates ≡ some c
      → g.failed ≡ none
      → g'.results ≡ placed n (shown_of c) g.results
      → g'.audits ≡ g.audits ++ audited service r c.process_instance_id (answer_of c)
      → IsStep n g g'
  works n g g' c here h results events =
      let t = nth-map shown_of n candidates c here in
      let own : ((nth n g.results ≡ target n) ⊎ (nth n g.results ≡ some none)) → Reached n g' =
        λ k. ap (nth n) results ∙ placed_same n (shown_of c) g.results t k in
      let others : (j : ℕ) → j ≢ n → nth j g'.results ≡ nth j g.results =
        λ j ne. ap (nth j) results ∙ placed_other j n (shown_of c) g.results ne in
      record {
        unfailed = h;
        kept = λ k.
            at_each (λ j. Reached j g' ⊎ Waits j g') n
              (inl (own (elim (k n) [ inl e ↦ inl e | inr w ↦ inr w.0 ])))
              (λ j ne. elim (k j) [
                | inl e ↦ inl (others j ne ∙ e)
                | inr w ↦ inr (others j ne ∙ w.0, w.1)
              ]);
        reaches =
            at_each (λ j. Reached j g → Reached j g') n (λ e. own (inl e))
              (λ j ne e. others j ne ∙ e);
        own = λ k. own (elim (k n) [ inl e ↦ inl e | inr w ↦ inr w.0 ]);
        events = rw here events;
      }

  run_candidate-IsStep :
      (n : ℕ) (g : Group) (c : Candidate)
      → nth n candidates ≡ some c
      → (finish_one n g (ask service r answers candidates g.failed c.process_instance_id)).failed
        ≡ none
      → IsStep n g
          (finish_one n g (ask service r answers candidates g.failed c.process_instance_id))
  run_candidate-IsStep n g c here h =
      let one = ask service r answers candidates g.failed c.process_instance_id in
      let (o, returned, unfailed, results, audits) = finish_one_ok n g one h in
      let asked : one ≡ settle service r false c.process_instance_id (answer_of c) =
        ap (λ f. ask service r answers candidates f c.process_instance_id) unfailed in
      let (same, events) =
        settle_ok service r c.process_instance_id (answer_of c) o
          (ap (λ x. x.0) (sym asked) ∙ returned) in
      works n g (finish_one n g one) c here unfailed (results ∙ ap (λ x. placed n x g.results) same)
        (audits ∙ ap (λ x. g.audits ++ x) (ap (λ x. x.1) asked ∙ events))

  run_one-IsStep :
      (n : ℕ) (g : Group)
      → (run_one service r answers candidates n g).failed ≡ none
      → IsStep n g (run_one service r answers candidates n g)
  unfolding run_one
  run_one-IsStep n g h = by_candidate (nth n candidates) refl h
    where
      by_candidate :
          (o : Option Candidate)
          → nth n candidates ≡ o
          → (run_candidate service r answers candidates n g o).failed ≡ none
          → IsStep n g (run_candidate service r answers candidates n g o)
      by_candidate none here h = idle n g here h
      by_candidate (some c) here h = run_candidate-IsStep n g c here h

  -- What a schedule does that does not fail.
  record IsRun (ns : List ℕ) (g g' : Group) : Type 0 where
    unfailed : g.failed ≡ none
    kept : Kept g → Kept g'
    reaches : (j : ℕ) → Reached j g → Reached j g'
    covers : Kept g → (j : ℕ) → In j ns → Reached j g'
    events : g'.audits ≡ g.audits ++ audited_all ns

  run_all-IsRun :
      (ns : List ℕ) (g : Group)
      → (run_all service r answers candidates ns g).failed ≡ none
      → IsRun ns g (run_all service r answers candidates ns g)
  unfolding run_all
  run_all-IsRun [] g h = record {
    unfailed = h;
    kept = λ k. k;
    reaches = λ j e. e;
    covers = λ k j i. absurd i;
    events = sym (append-nil g.audits);
  }
  run_all-IsRun (n ∷ ns) g h =
      let g' = run_one service r answers candidates n g in
      let later = run_all-IsRun ns g' h in
      let one = run_one-IsStep n g later.unfailed in
      record {
        unfailed = one.unfailed;
        kept = λ k. later.kept (one.kept k);
        reaches = λ j e. later.reaches j (one.reaches j e);
        covers = λ k j i. elim i [
          | inl e ↦ later.reaches j (subst (λ x. Reached x g') e (one.own k))
          | inr i' ↦ later.covers (one.kept k) j i'
        ];
        events =
            later.events
            ∙ (ap (λ a. a ++ audited_all ns) one.events
                ∙ append_assoc g.audits (audited_at (nth n candidates)) (audited_all ns));
      }

  -- Every candidate has its goroutine.
  abbrev pub IsCovering : List ℕ → Type 0
  IsCovering schedule = (n : ℕ) → nth n candidates ≢ none → In n schedule

  waited_ok :
      (failed : Option Fault) (results : List (Option Item)) (items : List Item)
      → waited service r answers candidates failed results ≡ ok items
      → (failed ≡ none) × (collect service r answers candidates results ≡ items)
  waited_ok none results items e = (refl, ok_inj e)
  waited_ok (some f) results items e = ground arith

  started-Kept : Kept (started service r answers candidates)
  started-Kept j = elim (Option-cases (nth j candidates)) [
    | inl absent ↦ inl (
        nth-map-none (λ c. none) j candidates absent
        ∙ sym (nth-map-none shown_of j candidates absent))
    | inr (c, here) ↦ inr (
      nth-map (λ c. none) j candidates c here,
      λ e. ground (arith, nth-map shown_of j candidates c here),
    )
  ]

  -- When authorizeCandidates returns, it returns, in the order of the candidates, an item for each
  -- approval that the user may see, that has attachments and that matches the keyword, and no other; and
  -- it has recorded an event for each of these and for each approval that the user may not see, in the
  -- order in which the goroutines ran: for every schedule in which each candidate has its goroutine.
  pub authorize_candidates-collect :
      (schedule : List ℕ) (items : List Item)
      → IsCovering schedule
      → (authorize_candidates service r answers candidates schedule).0 ≡ ok items
      → (items ≡ collect service r answers candidates (map shown_of candidates))
        × ((authorize_candidates service r answers candidates schedule).1 ≡ audited_all schedule)
  unfolding authorize_candidates
  authorize_candidates-collect schedule items covering e =
      let g =
        run_all service r answers candidates schedule (started service r answers candidates) in
      let (unfailed, same) = waited_ok g.failed g.results items e in
      let run = run_all-IsRun schedule (started service r answers candidates) unfailed in
      let all_reached : (j : ℕ) → Reached j g = λ j. elim (run.kept started-Kept j) [
        | inl reached ↦ reached
        | inr waits ↦
            run.covers started-Kept j
              (covering j (λ absent. waits.1 (nth-map-none shown_of j candidates absent)))
      ] in
      (
        sym same
            ∙ ap (collect service r answers candidates)
                (nth_ext g.results (map shown_of candidates) all_reached),
        run.events,
      )
