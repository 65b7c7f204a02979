-- ===== src/Approvals/Candidates/Laws.antt =====
-- What listCandidates returns.
use dingtalk_oa_attachment_b.Prelude.{
  ℕ, suc, ◌+◌, ◌-◌, ◌/◌, ◌≤◌, ◌≡◌, refl, sym, ap, ◌∙◌, subst, inl, inr, false, List, [], ◌∷◌, Text,
  text_eq, contains, eqb, ltb, length, length-append, All, All-append, AreDistinct,
  AreDistinct-append, contains-map-append, map, arith, Bool-cases,
}
use dingtalk_oa_attachment_b.Prelude.Int.{ℤ}
use native.Mathlib.Nat.{div-le_self}
use dingtalk_oa_attachment_b.Domain.Errors.{Fault, Result, ok, err, only, upstream}
use dingtalk_oa_attachment_b.Domain.Identifier.{normalize_process_instance_id}
use dingtalk_oa_attachment_b.Domain.Identifier.Laws.{IsNormal, normalize-IsNormal}
use dingtalk_oa_attachment_b.Domain.Search.{
  ApprovalCategory, ApprovalCategorySource, ApprovalInstanceIdQuery, ApprovalInstanceIdPage,
}
use dingtalk_oa_attachment_b.Domain.Errors.Inversion.{bind_ok, refuse_ok, ok_inj}
use dingtalk_oa_attachment_b.Approvals.Candidates.{
  CursorSource, Candidate, Listing, count_active, add_id, blame, invalid_id, add_ids, query_of,
  list_source, list_sources, list_candidates,
}

abbrev id_of : Candidate → Text
id_of c = c.process_instance_id

abbrev pub ids : List Candidate → List Text
ids cs = map id_of cs

abbrev pub IsNormalId : Candidate → Type 0
IsNormalId c = IsNormal c.process_instance_id

-- What the loops keep of the listing.
record IsListing (l : Listing) : Type 0 where
  normal : All IsNormalId l.candidates
  distinct : AreDistinct (ids l.candidates)
  seen_all : (id : Text) → contains l.seen id ≡ contains (ids l.candidates) id

add_id-IsListing :
    (source : ApprovalCategorySource) (l : Listing) (id : Text)
    → IsNormal id
    → IsListing l
    → IsListing (add_id source l id)
      × (length (add_id source l id).candidates ≤ length l.candidates + 1)
unfolding add_id
add_id-IsListing source l id n v = elim (Bool-cases (contains l.seen id)) [
  | inl h ↦ rw h (v, omega arith)
  | inr h ↦ rw h (
    record {
      normal = All-append IsNormalId l.candidates _ v.normal (n, tt);
      distinct = AreDistinct-append id_of l.candidates _ v.distinct (sym (v.seen_all id) ∙ h);
      seen_all = λ i. ground (
        arith,
        v.seen_all i,
        contains-map-append id_of l.candidates
            (record { process_instance_id = id; source = source } ∷ []) i,
      );
    },
    omega (
      arith,
      length-append l.candidates (record { process_instance_id = id; source = source } ∷ []),
    ),
  )
]

at_most : (a b : ℕ) → ltb a b ≡ false → b ≤ a
at_most a b h = ground arith

blame_ok {ℓ} : {A : Type ℓ} (g : Fault → Fault) (m : Result A) (a : A) → blame g m ≡ ok a → m ≡ ok a
blame_ok g (ok x) a e = e
blame_ok g (err f) a e = ground arith

add_ids-IsListing :
    (source : ApprovalCategorySource) (l l' : Listing) (raws : List Text)
    → add_ids source l raws ≡ ok l'
    → IsListing l
    → IsListing l' × (length l'.candidates ≤ length l.candidates + length raws)
unfolding add_ids
add_ids-IsListing source l l' [] e v =
    subst (λ x. IsListing x × (length x.candidates ≤ length l.candidates + 0)) (ok_inj e)
      (v, omega arith)
add_ids-IsListing source l l' (raw ∷ raws) e v =
    let (id, named, rest) = bind_ok (blame invalid_id (normalize_process_instance_id raw)) _ e in
    let normal = (normalize-IsNormal raw id).0 (blame_ok invalid_id _ id named) in
    let one = add_id-IsListing source l id normal.1 v in
    let more = add_ids-IsListing source (add_id source l id) l' raws rest one.0 in
    (more.0, omega (arith, one.1, more.1))

module _ (list_ids : ApprovalInstanceIdQuery → Result ApprovalInstanceIdPage)
    (start_ms end_ms : ℤ) where
  list_source-IsListing :
      (source : ApprovalCategorySource) (s s' : CursorSource) (quota : ℕ) (l l' : Listing)
      → list_source list_ids start_ms end_ms source s quota l ≡ ok (s', l')
      → IsListing l
      → IsListing l' × (length l'.candidates ≤ length l.candidates + quota)
  unfolding list_source
  list_source-IsListing source s s' quota l l' e v =
      let (page, _, e1) =
        bind_ok (list_ids (query_of list_ids start_ms end_ms source s quota)) _ e in
      let (small, e2) =
        refuse_ok (ltb quota (length page.process_instance_ids)) (only upstream) _ e1 in
      let (l1, added, e3) = bind_ok (add_ids source l page.process_instance_ids) _ e2 in
      let same : l1 ≡ l' = ap (λ r. r.1) (ok_inj e3) in
      let more = add_ids-IsListing source l l1 page.process_instance_ids added v in
      subst (λ x. IsListing x × (length x.candidates ≤ length l.candidates + quota)) same
        (more.0, omega (arith, more.1, at_most quota (length page.process_instance_ids) small))

  abbrev Listed : Listing → ℕ → ℕ → List CursorSource × Listing → Type 0
  Listed l limit n r =
      IsListing r.1 × (length r.1.candidates ≤ length l.candidates + limit) × (length r.0 ≡ n)

  list_sources-IsListing :
      (limit active : ℕ) (l : Listing) (states : List CursorSource)
      (sources : List ApprovalCategorySource) (r : List CursorSource × Listing)
      → list_sources list_ids start_ms end_ms limit active l states sources ≡ ok r
      → IsListing l
      → Listed l limit (length states) r
  unfolding list_sources
  list_sources-IsListing limit active l [] sources r e v =
      subst (Listed l limit 0) (ok_inj e) (v, omega arith, refl)
  list_sources-IsListing limit active l (s ∷ ss) [] r e v = ground arith
  list_sources-IsListing limit active l (s ∷ ss) (source ∷ sources) r e v =
      elim (Bool-cases s.done) [
        | inl h ↦
            let (t, tail, done) =
              bind_ok (list_sources list_ids start_ms end_ms limit active l ss sources) _
                (rw (h, list_sources) at e) in
            let more = list_sources-IsListing limit active l ss sources t tail v in
            subst (Listed l limit (suc (length ss))) (ok_inj done)
              (more.0, more.1, omega (arith, more.2))
        | inr h ↦
            let quota = limit / active in
            let (one, first, e1) =
              bind_ok (list_source list_ids start_ms end_ms source s quota l) _
                (rw (h, list_sources) at e) in
            let (t, tail, done) =
              bind_ok
                (list_sources list_ids start_ms end_ms (limit - quota) (active - 1) one.1 ss
                  sources)
                _ e1 in
            let here = list_source-IsListing source s one.0 quota l one.1 first v in
            let more =
              list_sources-IsListing (limit - quota) (active - 1) one.1 ss sources t tail here.0 in
            subst (Listed l limit (suc (length ss))) (ok_inj done) (
              more.0,
              omega (arith, here.1, more.1, div-le_self limit active),
              omega (arith, more.2),
            )
      ]

  abbrev Outcome : List CursorSource → ℕ → List CursorSource × List Candidate → Type 0
  Outcome ss n q =
      (length q.1 ≤ n) × All IsNormalId q.1 × AreDistinct (ids q.1) × (length q.0 ≡ length ss)

  abbrev empty_listing : Listing
  empty_listing = record { seen = []; candidates = [] }

  -- When listCandidates returns, it returns at most `limit` candidates, their process instance IDs are
  -- in normal form and no two are equal, and the cursor has as many sources as before: for every
  -- category and cursor and every answer of the provider.
  pub list_candidates-AreDistinct :
      (category : ApprovalCategory) (states : List CursorSource) (limit : ℕ)
      (r : List CursorSource × List Candidate)
      → list_candidates list_ids start_ms end_ms category states limit ≡ ok r
      → (length r.1 ≤ limit)
        × All IsNormalId r.1
        × AreDistinct (ids r.1)
        × (length r.0 ≡ length states)
  unfolding list_candidates
  list_candidates-AreDistinct category states limit r e =
      elim (Bool-cases (eqb (count_active states) 0)) [
        | inl h ↦
            subst (Outcome states limit) (ok_inj (rw (h, list_candidates) at e))
              (omega arith, tt, tt, refl)
        | inr h ↦
            let (t, listed, done) =
              bind_ok
                (list_sources list_ids start_ms end_ms limit (count_active states) empty_listing
                  states category.sources)
                _ (rw (h, list_candidates) at e) in
            let more =
              list_sources-IsListing limit (count_active states) empty_listing states
                category.sources t listed
                (record { normal = tt; distinct = tt; seen_all = λ i. refl }) in
            subst (Outcome states limit) (ok_inj done)
              (omega (arith, more.1), more.0.normal, more.0.distinct, more.2)
      ]
