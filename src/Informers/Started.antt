-- ===== src/Informers/Started.antt =====
-- What Start marks, and what WaitForCacheSync copies and answers.
use fs_lib.Prelude.{
  is_some, member-lookup, lookup-nil, inl, inr, List, [], ◌∷◌, ◌≡◌, refl, ap, ◌∙◌, Bool, true,
  false, ◌&&◌, ◌||◌, Option, none, some, if◌then◌else◌, arith, Bytes, equal, equal_iff, Map, lookup,
  insert, keys, member, lookup-insert, IsRangeOrder, Option-cases,
}
use fs_lib.Informers.{Factory, is_started, start_informer, start_all, start, copy_started, sync_all}
use fs_lib.Informers.Once.{start_up}

module _ {I D T : Type 0} where
  pub start_informer-marks :
      (k j : Bytes) (o : Option I) (f : Factory I D T)
      → ((start_informer k o f).informers ≡ f.informers)
        × (is_started j (start_informer k o f) ≡ (is_started j f || equal k j && is_some o))
  unfolding start_informer is_started
  start_informer-marks k j none f = (refl, ground arith)
  start_informer-marks k j (some i) f =
      (ground arith, ground (arith, lookup-insert k j true f.started_informers, equal_iff k j))

  pub start_all-marks :
      (ks : List Bytes) (j : Bytes) (f : Factory I D T)
      → ((start_all ks f).informers ≡ f.informers)
        × (is_started j (start_all ks f)
            ≡ (is_started j f || member j ks && is_some (lookup j f.informers)))
  unfolding start_all member
  start_all-marks [] j f = (refl, ground arith)
  start_all-marks (k ∷ ks) j f =
      let g = start_informer k (lookup k f.informers) f in
      let (same, marks) = start_informer-marks k j (lookup k f.informers) f in
      let (kept, all) = start_all-marks ks j g in
      (kept ∙ same, ground (arith, all, marks, ap (λ m. is_some (lookup j m)) same, equal_iff k j))

  pub copy_started-lookup :
      (ks : List Bytes) (j : Bytes) (f : Factory I D T) (m : Map I)
      → lookup j (copy_started ks f m) ≡ (
          if member j ks && is_started j f && is_some (lookup j f.informers)
          then lookup j f.informers
          else lookup j m)
  unfolding copy_started member
  copy_started-lookup [] j f m = ground arith
  copy_started-lookup (k ∷ ks) j f m = elim (Option-cases (lookup k f.informers)) [
    | inl unknown ↦ ground (arith, copy_started-lookup ks j f m, equal_iff k j)
    | inr (i, known) ↦ ground (
      arith,
      copy_started-lookup ks j f (insert k i m),
      copy_started-lookup ks j f m,
      lookup-insert k j i m,
      equal_iff k j,
    )
  ]

abbrev pub answer_of : {I : Type 0} → (I → Bool) → Option I → Option Bool
answer_of has_synced none = none
answer_of has_synced (some i) = some (has_synced i)

pub sync_all-lookup :
    {I : Type 0} (has_synced : I → Bool) (ks : List Bytes) (j : Bytes) (m : Map I)
    (answers : Map Bool)
    → lookup j (sync_all has_synced ks m answers) ≡ (
        if member j ks && is_some (lookup j m)
        then answer_of has_synced (lookup j m)
        else lookup j answers)
unfolding sync_all member
sync_all-lookup has_synced [] j m answers = ground arith
sync_all-lookup has_synced (k ∷ ks) j m answers = elim (Option-cases (lookup k m)) [
  | inl unknown ↦ ground (arith, sync_all-lookup has_synced ks j m answers, equal_iff k j)
  | inr (i, known) ↦ ground (
    arith,
    sync_all-lookup has_synced ks j m (insert k (has_synced i) answers),
    lookup-insert k j (has_synced i) answers,
    equal_iff k j,
  )
]

pub asked :
    {I : Type 0} (has_synced : I → Bool) (o : Option I) (j : Bytes)
    → (if is_some o then answer_of has_synced o else lookup j []) ≡ answer_of has_synced o
unfolding lookup
asked has_synced none j = refl
asked has_synced (some i) j = refl

module _ {I D T : Type 0} where
  pub start-marks :
      (order : List Bytes → List Bytes) (j : Bytes) (f : Factory I D T)
      → IsRangeOrder order
      → f.shutting_down ≡ false
      → ((start order f).informers ≡ f.informers)
        × (is_started j (start order f) ≡ (is_started j f || is_some (lookup j f.informers)))
  start-marks order j f visits up =
      let e = start_up order f up in
      let (kept, all) = start_all-marks (order (keys f.informers)) j f in
      (
        ap (λ (g : Factory I D T). g.informers) e ∙ kept,
        ap (is_started j) e
            ∙ all
            ∙ ground (arith, visits.same j (keys f.informers), member-lookup j f.informers),
      )

  pub copied :
      (order : List Bytes → List Bytes) (f : Factory I D T) (j : Bytes)
      → IsRangeOrder order
      → f.shutting_down ≡ false
      → lookup j (copy_started (order (keys (start order f).informers)) (start order f) [])
        ≡ lookup j f.informers
  copied order f j visits up =
      let g = start order f in
      let (same, marks) = start-marks order j f visits up in
      let copy = copy_started-lookup (order (keys g.informers)) j g [] in
      ground (
        arith,
        copy,
        marks,
        ap (lookup j) same,
        visits.same j (keys g.informers),
        member-lookup j g.informers,
        lookup-nil {V = I} j,
        Option-cases (lookup j f.informers),
      )
