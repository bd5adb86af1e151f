-- ===== src/Informers/Synced.antt =====
-- What Start and WaitForCacheSync do together, and that an informer is shared.
use fs_lib.Prelude.{
  ℕ, member-lookup, lookup-insert_self, inl, inr, List, [], ◌∷◌, ◌≡◌, refl, ap, ◌∙◌, Bool, false,
  Option, none, some, if◌then◌else◌, arith, Bytes, equal_iff, lookup, keys, lookup-insert,
  IsRangeOrder, Bool-cases,
}
use fs_lib.Informers.{
  or_default, Factory, start_informer, start_all, start, shutdown, run_ends, make_informer,
  informer_for, copy_started, wait_for_cache_sync, Call, asks, starts, shuts, ends, take_call, run,
}
use fs_lib.Informers.Once.{start_up, start_down}
use fs_lib.Informers.Started.{
  start_informer-marks, answer_of, sync_all-lookup, asked, start-marks, copied,
}

module _ {I D T : Type 0} where
  -- After a Start of a factory that is not shutting down, WaitForCacheSync answers for each type
  -- that has an informer, with what that informer says, and for no other type, whatever the order
  -- of the visits.
  pub wait_for_cache_sync-start :
      (order : List Bytes → List Bytes) (has_synced : I → Bool) (f : Factory I D T) (j : Bytes)
      → IsRangeOrder order
      → f.shutting_down ≡ false
      → lookup j (wait_for_cache_sync order has_synced (start order f))
        ≡ answer_of has_synced (lookup j f.informers)
  unfolding wait_for_cache_sync
  wait_for_cache_sync-start order has_synced f j visits up =
      let g = start order f in
      let (same, marks) = start-marks order j f visits up in
      let copy = copy_started (order (keys g.informers)) g [] in
      let found : lookup j copy ≡ lookup j f.informers = copied order f j visits up in
      sync_all-lookup has_synced (order (keys copy)) j copy []
      ∙ ap (λ b. if b then answer_of has_synced (lookup j copy) else lookup j [])
          (ground (arith, visits.same j (keys copy), member-lookup j copy))
      ∙ asked has_synced (lookup j copy) j
      ∙ ap (answer_of has_synced) found

  -- What a call leaves of the informers
  make_informer-keeps :
      (k j : Bytes) (new_func : ℕ → D → I) (o : Option I) (i : I) (f : Factory I D T)
      → lookup j f.informers ≡ o
      → lookup k f.informers ≡ some i
      → lookup k (make_informer j new_func o f).0.informers ≡ some i
  unfolding make_informer
  make_informer-keeps k j new_func (some other) i f at known = known
  make_informer-keeps k j new_func none i f at known =
      let made =
        new_func f.made_informers (or_default f.default_resync (lookup j f.custom_resync)) in
      ground (arith, lookup-insert j k made f.informers, equal_iff j k)

  start_all-keeps : (ks : List Bytes) (f : Factory I D T) → (start_all ks f).informers ≡ f.informers
  unfolding start_all
  start_all-keeps [] f = refl
  start_all-keeps (k ∷ ks) f =
      start_all-keeps ks (start_informer k (lookup k f.informers) f)
      ∙ (start_informer-marks k k (lookup k f.informers) f).0

  start-keeps :
      (order : List Bytes → List Bytes) (f : Factory I D T)
      → (start order f).informers ≡ f.informers
  start-keeps order f = elim (Bool-cases f.shutting_down) [
    | inl down ↦ ap (λ (g : Factory I D T). g.informers) (start_down order f down)
    | inr up ↦
        ap (λ (g : Factory I D T). g.informers) (start_up order f up)
        ∙ start_all-keeps (order (keys f.informers)) f
  ]

  run-keeps :
      (calls : List (Call I D)) (k : Bytes) (i : I) (f : Factory I D T)
      → lookup k f.informers ≡ some i
      → lookup k (run calls f).informers ≡ some i
  unfolding run take_call informer_for shutdown run_ends
  run-keeps [] k i f known = known
  run-keeps (asks j new_func ∷ calls) k i f known =
      run-keeps calls k i (informer_for j new_func f).0
        (make_informer-keeps k j new_func (lookup j f.informers) i f refl known)
  run-keeps (starts order ∷ calls) k i f known =
      run-keeps calls k i (start order f) (ap (lookup k) (start-keeps order f) ∙ known)
  run-keeps (shuts ∷ calls) k i f known = run-keeps calls k i (shutdown f) known
  run-keeps (ends ∷ calls) k i f known = run-keeps calls k i (run_ends f) known

  make_informer-known :
      (k : Bytes) (new_func : ℕ → D → I) (o : Option I) (f : Factory I D T)
      → lookup k f.informers ≡ o
      → lookup k (make_informer k new_func o f).0.informers ≡ some (make_informer k new_func o f).1
  unfolding make_informer
  make_informer-known k new_func (some i) f at = at
  make_informer-known k new_func none f at =
      let made =
        new_func f.made_informers (or_default f.default_resync (lookup k f.custom_resync)) in
      lookup-insert_self k made f.informers

  -- The informer that InformerFor returns for a type: whatever is called afterwards, InformerFor
  -- returns it again for that type and changes nothing; and if no Shutdown was called, a Start and
  -- then WaitForCacheSync give the type what this informer says, whatever the order of the visits.
  pub informer_is_shared :
      (k : Bytes) (new_func again : ℕ → D → I) (f : Factory I D T) (calls : List (Call I D))
      (order : List Bytes → List Bytes) (has_synced : I → Bool)
      → IsRangeOrder order
      → (run calls (informer_for k new_func f).0).shutting_down ≡ false
      → (informer_for k again (run calls (informer_for k new_func f).0)
          ≡ (run calls (informer_for k new_func f).0, (informer_for k new_func f).1))
        × (lookup k (
              wait_for_cache_sync order has_synced
                (start order (run calls (informer_for k new_func f).0)))
            ≡ some (has_synced (informer_for k new_func f).1))
  unfolding informer_for make_informer
  informer_is_shared k new_func again f calls order has_synced visits up =
      let (g, i) = informer_for k new_func f in
      let h = run calls g in
      let known : lookup k h.informers ≡ some i =
        run-keeps calls k i g (make_informer-known k new_func (lookup k f.informers) f refl) in
      (
        ap (λ o. make_informer k again o h) known,
        wait_for_cache_sync-start order has_synced h k visits up ∙ ap (answer_of has_synced) known,
      )
