-- ===== src/SubManager/Copy.antt =====
-- main/sub_manager.c, lines 8 to 90: what becomes of the memory that a copy of a filter takes.
use mathlib.Core.List.{append_assoc, append-nil}
use wisp_esp.Base.{
  ℕ, ◌+◌, ◌-◌, ◌≤◌, ◌≡◌, refl, ap, ◌∙◌, subst, Bool, false, Option, none, some, inl, inr, List, [],
  ◌∷◌, ◌++◌, arith, length, Bool-cases,
}
use wisp_esp.Base.Int.{ℤ}
use wisp_esp.Protocol.{Text, GenericTag, Filter}
use wisp_esp.SubManager.Memory.{
  Mem, string_blocks, value_blocks, array_blocks, blocks, M, ◌>>=◌, owned, no_filter, copy_strings,
  copy_string_array, copy_int_array, copy_tags, copy_generic_tags, copy_field, filter_copy,
  all_blocks, free_filters, copy_filters, put_ids, put_authors, put_kinds, put_e_tags, put_p_tags,
  put_generic_tags, put_scalars, from_authors, from_kinds, from_e_tags, from_p_tags,
  from_generic_tags,
}

-- The outcome of a copy of `x` with `cost` blocks, where failure frees `back` blocks of before.
pub data Outcome {ℓ} (grants : ℕ → Bool) {A : Type ℓ} (x : A) (cost back : ℕ) (m : Mem)
    (out : Option A × Mem) : Type ℓ where
  copied : out.0 ≡ some x → out.1.live ≡ m.live + cost → Outcome grants x cost back m out
  failed :
      (n : ℕ)
      → grants n ≡ false
      → out.0 ≡ none
      → out.1.live + back ≡ m.live
      → Outcome grants x cost back m out

module _ (grants : ℕ → Bool) where
  copy_strings-Outcome :
      (ss : List Text) (i : ℕ) (m : Mem)
      → i + 1 ≤ m.live
      → Outcome grants ss (length ss) (i + 1) m (copy_strings grants ss i m)
  unfolding copy_strings
  copy_strings-Outcome [] i m h = copied refl (omega arith)
  copy_strings-Outcome (s ∷ ss) i m h = elim (Bool-cases (grants m.calls)) [
    | inr e ↦ failed m.calls e (rw e) (rw e (omega arith))
    | inl e ↦
        elim (copy_strings-Outcome ss (i + 1) (record { calls = m.calls + 1; live = m.live + 1 })
          (omega arith)) [
            | copied c l ↦ copied (rw (e, c)) (rw e (omega (arith, l)))
            | failed n r c l ↦ failed n r (rw (e, c)) (rw e (omega (arith, l)))
          ]
  ]

  -- An array of strings, with the test of its caller.
  copy_string_array-Outcome :
      (ss : List Text) (m : Mem)
      → let out = copy_string_array grants ss m in
        Outcome grants ss (string_blocks ss) 0 m (owned ss out.0, out.1)
  unfolding copy_string_array
  copy_string_array-Outcome [] m = copied refl (omega arith)
  copy_string_array-Outcome (s ∷ ss) m = elim (Bool-cases (grants m.calls)) [
    | inr e ↦ failed m.calls e (rw e) (rw e (omega arith))
    | inl e ↦
        elim (copy_strings-Outcome (s ∷ ss) 0 (record { calls = m.calls + 1; live = m.live + 1 })
          (omega arith)) [
            | copied c l ↦ copied (rw (e, c)) (rw e (omega (arith, l)))
            | failed n r c l ↦ failed n r (rw (e, c)) (rw e (omega (arith, l)))
          ]
  ]

  copy_int_array-Outcome :
      (ks : List ℤ) (m : Mem)
      → let out = copy_int_array grants ks m in
        Outcome grants ks (array_blocks ks) 0 m (owned ks out.0, out.1)
  unfolding copy_int_array
  copy_int_array-Outcome [] m = copied refl (omega arith)
  copy_int_array-Outcome (k ∷ ks) m = elim (Bool-cases (grants m.calls)) [
    | inr e ↦ failed m.calls e (rw e) (rw e (omega arith))
    | inl e ↦ copied (rw e) (rw e (omega arith))
  ]

  copy_tags-Outcome :
      (ts : List GenericTag) (done : ℕ) (m : Mem)
      → done + 1 ≤ m.live
      → Outcome grants ts (value_blocks ts) (done + 1) m (copy_tags grants ts done m)
  unfolding copy_tags
  copy_tags-Outcome [] done m h = copied refl (omega arith)
  copy_tags-Outcome (t ∷ ts) done m h = elim (copy_string_array-Outcome t.values m) [
    | failed n r c l ↦ failed n r (simp (c, copy_tags)) (simp (c, copy_tags) (omega (arith, l)))
    | copied c l ↦
        elim (copy_tags-Outcome ts (done + string_blocks t.values)
          (copy_string_array grants t.values m).1 (omega (arith, l))) [
            | copied c' l' ↦
                copied (simp (c, c', copy_tags)) (simp (c, copy_tags) (omega (arith, l, l')))
            | failed n r c' l' ↦
                failed n r (simp (c, c', copy_tags)) (simp (c, copy_tags) (omega (arith, l, l')))
          ]
  ]

  copy_generic_tags-Outcome :
      (ts : List GenericTag) (m : Mem)
      → let out = copy_generic_tags grants ts m in
        Outcome grants ts (array_blocks ts + value_blocks ts) 0 m (owned ts out.0, out.1)
  unfolding copy_generic_tags
  copy_generic_tags-Outcome [] m = copied refl (omega arith)
  copy_generic_tags-Outcome (t ∷ ts) m = elim (Bool-cases (grants m.calls)) [
    | inr e ↦ failed m.calls e (rw e) (rw e (omega arith))
    | inl e ↦
        elim (copy_tags-Outcome (t ∷ ts) 0 (record { calls = m.calls + 1; live = m.live + 1 })
          (omega arith)) [
            | copied c l ↦ copied (rw (e, c)) (rw e (omega (arith, l)))
            | failed n r c l ↦ failed n r (rw (e, c)) (rw e (omega (arith, l)))
          ]
  ]

  -- The library's `nostr_filter_free` frees what a filter owns.
  module _ (filter_free : Filter → Mem → Mem)
      (frees : (f : Filter) (m : Mem) → (filter_free f m).live ≡ m.live - blocks f) where
    -- A step of `filter_copy` from a partial copy `dst` to `next`.
    copy_field-Outcome {ℓ} :
        {A : Type ℓ} (copy : M (Option (List A))) (xs : List A) (cost : ℕ) (put : List A → Filter)
        (dst : Filter) (m : Mem)
        → Outcome grants xs cost 0 m (owned xs (copy m).0, (copy m).1)
        → blocks dst ≤ m.live
        → Outcome grants
            (put xs)
            cost
            (blocks dst)
            m
            (copy_field grants filter_free copy xs put dst m)
    unfolding copy_field
    copy_field-Outcome copy xs cost put dst m (copied c l) h =
        copied (simp (c, copy_field)) (simp (c, copy_field) l)
    copy_field-Outcome copy xs cost put dst m (failed n r c l) h =
        failed n r (simp (c, copy_field))
          (simp (c, copy_field) (omega (arith, l, frees dst (copy m).1)))

    bind-Outcome :
        {x y : Filter} {cost cost' : ℕ} (dst : Filter) (m : Mem) (s : M (Option Filter))
        (f : Filter → M (Option Filter))
        → Outcome grants x cost (blocks dst) m (s m)
        → blocks x ≡ blocks dst + cost
        → ((m' : Mem) → m'.live ≡ m.live + cost → Outcome grants y cost' (blocks x) m' (f x m'))
        → Outcome grants y (cost + cost') (blocks dst) m ((s >>= f) m)
    bind-Outcome {x} dst m s f (copied c l) e next =
        rw (c, ◌>>=◌)
          (elim (next (s m).1 l) [
            | copied c' l' ↦ copied c' (omega (arith, l, l'))
            | failed n r c' l' ↦ failed n r c' (omega (arith, l, l', e))
          ])
    bind-Outcome dst m s f (failed n r c l) e next = rw (c, ◌>>=◌) (failed n r refl l)

    -- One array of `filter_copy`, and what comes after it.
    field-Outcome {ℓ} :
        {A : Type ℓ} {y : Filter} {cost' : ℕ} (copy : M (Option (List A))) (xs : List A) (cost : ℕ)
        (put : List A → Filter) (dst : Filter) (f : Filter → M (Option Filter)) (m : Mem)
        → ((m' : Mem) → Outcome grants xs cost 0 m' (owned xs (copy m').0, (copy m').1))
        → blocks (put xs) ≡ blocks dst + cost
        → blocks dst ≤ m.live
        → ((m' : Mem)
            → blocks (put xs) ≤ m'.live
            → Outcome grants y cost' (blocks (put xs)) m' (f (put xs) m'))
        → Outcome grants y
            (cost + cost')
            (blocks dst)
            m
            ((copy_field grants filter_free copy xs put dst >>= f) m)
    field-Outcome copy xs cost put dst f m each e h next =
        bind-Outcome dst m (copy_field grants filter_free copy xs put dst) f
          (copy_field-Outcome copy xs cost put dst m (each m) h) e
          λ m' l. next m' (omega (arith, e, l, h))

    pub filter_copy-Outcome :
        (src : Filter) (m : Mem)
        → Outcome grants src (blocks src) 0 m (filter_copy grants filter_free src m)
    unfolding filter_copy
    filter_copy-Outcome src m =
        let d1 = put_ids no_filter src.ids in
        let d2 = put_authors d1 src.authors in
        let d3 = put_kinds d2 src.kinds in
        let d4 = put_e_tags d3 src.e_tags in
        let d5 = put_p_tags d4 src.p_tags in
        subst (λ n. Outcome grants src n 0 m (filter_copy grants filter_free src m)) total
          (field-Outcome (copy_string_array grants src.ids) src.ids _ (put_ids no_filter) no_filter
            (from_authors grants filter_free src) m (copy_string_array-Outcome src.ids)
            (omega arith) (omega arith)
            λ m h.
              field-Outcome (copy_string_array grants src.authors) src.authors _ (put_authors d1) d1
                (from_kinds grants filter_free src) m (copy_string_array-Outcome src.authors)
                (omega arith) h
                λ m h.
                  field-Outcome (copy_int_array grants src.kinds) src.kinds _ (put_kinds d2) d2
                    (from_e_tags grants filter_free src) m (copy_int_array-Outcome src.kinds)
                    (omega arith) h
                    λ m h.
                      field-Outcome (copy_string_array grants src.e_tags) src.e_tags _
                        (put_e_tags d3) d3 (from_p_tags grants filter_free src) m
                        (copy_string_array-Outcome src.e_tags) (omega arith) h
                        λ m h.
                          field-Outcome (copy_string_array grants src.p_tags) src.p_tags _
                            (put_p_tags d4) d4 (from_generic_tags grants filter_free src) m
                            (copy_string_array-Outcome src.p_tags) (omega arith) h
                            λ m h.
                              field-Outcome (copy_generic_tags grants src.generic_tags)
                                src.generic_tags _ (put_generic_tags d5) d5 (put_scalars src) m
                                (copy_generic_tags-Outcome src.generic_tags) (omega arith) h
                                λ m h. copied refl (omega arith))
      where
        total :
            string_blocks src.ids
              + (string_blocks src.authors
                  + (array_blocks src.kinds
                      + (string_blocks src.e_tags
                          + (string_blocks src.p_tags
                              + (array_blocks src.generic_tags
                                  + value_blocks src.generic_tags
                                  + 0)))))
            ≡ blocks src
        total = omega arith

    pub free_filters-live :
        (fs : List Filter) (m : Mem)
        → (free_filters grants filter_free fs m).live ≡ m.live - all_blocks fs
    free_filters-live [] m = omega arith
    free_filters-live (f ∷ fs) m = omega (arith, free_filters-live fs (filter_free f m), frees f m)

    all_blocks-append :
        (fs gs : List Filter) → all_blocks (fs ++ gs) ≡ all_blocks fs + all_blocks gs
    all_blocks-append [] gs = omega arith
    all_blocks-append (f ∷ fs) gs = omega (arith, all_blocks-append fs gs)

    -- The same of a list of filters, after some `copies` that failure frees too.
    pub copy_filters-Outcome :
        (fs copies : List Filter) (m : Mem)
        → all_blocks copies ≤ m.live
        → Outcome grants
            (copies ++ fs)
            (all_blocks fs)
            (all_blocks copies)
            m
            (copy_filters grants filter_free fs copies m)
    unfolding copy_filters
    copy_filters-Outcome [] copies m h = copied (rw append-nil) (omega arith)
    copy_filters-Outcome (f ∷ fs) copies m h = elim (filter_copy-Outcome f m) [
      | failed n r c l ↦ failed n r (simp (c, copy_filters)) (
          simp (c, copy_filters)
            (omega (arith, l, free_filters-live copies (filter_copy grants filter_free f m).1)))
      | copied c l ↦
          let grown = all_blocks-append copies (f ∷ []) in
          elim (copy_filters-Outcome fs (copies ++ f ∷ []) (filter_copy grants filter_free f m).1
            (omega (arith, grown, l))) [
              | copied c' l' ↦
                  copied (simp (c, copy_filters) (c' ∙ ap some (append_assoc copies (f ∷ []) fs)))
                    (simp (c, copy_filters) (omega (arith, l, l')))
              | failed n r c' l' ↦
                  failed n r (simp (c, copy_filters) c')
                    (simp (c, copy_filters) (omega (arith, l, l', grown)))
            ]
    ]
