-- ===== src/SubManager/Memory.antt =====
-- main/sub_manager.c, lines 8 to 90: deep copies of filters, with every call of the allocator.
-- `grants n` tells whether the n-th call succeeds. `live` counts the blocks that are allocated
-- and not freed.
use mathlib.Core.Option
use wisp_esp.Base.{
  ℕ, ◌+◌, ◌-◌, Bool, true, false, Option, none, some, List, [], ◌∷◌, ◌++◌, if◌then◌else◌, length,
}
use wisp_esp.Base.Int.{ℤ, pos}
use wisp_esp.Protocol.{Text, GenericTag, Filter}

pub record Mem : Type 0 where
  pub calls : ℕ
  pub live : ℕ

-- `free` of `n` blocks.
abbrev pub release : ℕ → Mem → Mem
release n m = record m { live = m.live - n }

-- The blocks behind an array of strings: the array and each string.
abbrev pub string_blocks : List Text → ℕ
string_blocks [] = 0
string_blocks (s ∷ ss) = 1 + length (s ∷ ss)

-- The values of all tags, without the array of the tags.
abbrev pub value_blocks : List GenericTag → ℕ
value_blocks [] = 0
value_blocks (t ∷ ts) = string_blocks t.values + value_blocks ts

abbrev pub array_blocks {ℓ} : {A : Type ℓ} → List A → ℕ
array_blocks [] = 0
array_blocks (x ∷ xs) = 1

abbrev pub blocks : Filter → ℕ
blocks f =
    string_blocks f.ids
    + string_blocks f.authors
    + array_blocks f.kinds
    + string_blocks f.e_tags
    + string_blocks f.p_tags
    + (array_blocks f.generic_tags + value_blocks f.generic_tags)

abbrev pub all_blocks : List Filter → ℕ
all_blocks [] = 0
all_blocks (f ∷ fs) = blocks f + all_blocks fs

-- A copy in progress: `none` is failure. The memory comes back in both cases.
abbrev pub M {ℓ} : Type ℓ → Type ℓ
M A = Mem → A × Mem

infixl 5 ◌>>=◌
abbrev pub ◌>>=◌ {ℓ κ} :
    {A : Type ℓ} {B : Type κ} → M (Option A) → (A → M (Option B)) → M (Option B)
◌>>=◌ s f m = elim (s m).0 [ none ↦ (none, (s m).1) | some a ↦ f a (s m).1 ]

-- `if (count > 0 && !copy) goto fail`: a null pointer is right for an empty array only.
abbrev pub owned {ℓ} : {A : Type ℓ} → List A → Option (List A) → Option (List A)
owned xs (some ys) = some ys
owned [] none = some []
owned (x ∷ xs) none = none

abbrev pub no_filter : Filter
no_filter = record {
  ids = [];
  authors = [];
  kinds = [];
  e_tags = [];
  p_tags = [];
  generic_tags = [];
  since = pos 0;
  until = pos 0;
  limit = pos 0;
}

-- The arrays of a filter, one store each.
abbrev pub put_ids : Filter → List Text → Filter
put_ids d a = record d { ids = a }

abbrev pub put_authors : Filter → List Text → Filter
put_authors d a = record d { authors = a }

abbrev pub put_kinds : Filter → List ℤ → Filter
put_kinds d a = record d { kinds = a }

abbrev pub put_e_tags : Filter → List Text → Filter
put_e_tags d a = record d { e_tags = a }

abbrev pub put_p_tags : Filter → List Text → Filter
put_p_tags d a = record d { p_tags = a }

abbrev pub put_generic_tags : Filter → List GenericTag → Filter
put_generic_tags d a = record d { generic_tags = a }

abbrev pub put_scalars : Filter → Filter → M (Option Filter)
put_scalars src d m =
    (some (record d { since = src.since; until = src.until; limit = src.limit }), m)

module _ (grants : ℕ → Bool) where
  -- `malloc`, `calloc` and `strdup`: whether they return a block.
  abbrev pub alloc : M Bool
  alloc m =
      if grants m.calls
      then (true, record { calls = m.calls + 1; live = m.live + 1 })
      else (false, record m { calls = m.calls + 1 })

  -- The loop of `copy_string_array`, with `i` strings copied: on failure it frees those strings
  -- and the array.
  unfoldable pub copy_strings : List Text → ℕ → M (Option (List Text))
  copy_strings [] i m = (some [], m)
  copy_strings (s ∷ ss) i m =
      let (ok, m') = alloc m in
      let rest = copy_strings ss (i + 1) m' in
      if ok then (Option.map (λ r. s ∷ r) rest.0, rest.1) else (none, release (i + 1) m')

  -- `none` is the null pointer.
  unfoldable pub copy_string_array : List Text → M (Option (List Text))
  copy_string_array [] m = (none, m)
  copy_string_array (s ∷ ss) m =
      let (ok, m') = alloc m in if ok then copy_strings (s ∷ ss) 0 m' else (none, m')

  unfoldable pub copy_int_array : List ℤ → M (Option (List ℤ))
  copy_int_array [] m = (none, m)
  copy_int_array (k ∷ ks) m =
      let (ok, m') = alloc m in if ok then (some (k ∷ ks), m') else (none, m')

  -- The loop of `copy_generic_tags`: on failure it frees the `done` blocks of the values of the
  -- tags before, and the array.
  unfoldable pub copy_tags : List GenericTag → ℕ → M (Option (List GenericTag))
  copy_tags [] done m = (some [], m)
  copy_tags (t ∷ ts) done m =
      let (values, m') = copy_string_array t.values m in
      elim (owned t.values values) [
        | none ↦ (none, release (done + 1) m')
        | some vs ↦
            let rest = copy_tags ts (done + string_blocks vs) m' in
            (Option.map (λ r. record t { values = vs } ∷ r) rest.0, rest.1)
      ]

  unfoldable pub copy_generic_tags : List GenericTag → M (Option (List GenericTag))
  copy_generic_tags [] m = (none, m)
  copy_generic_tags (t ∷ ts) m =
      let (ok, m') = alloc m in if ok then copy_tags (t ∷ ts) 0 m' else (none, m')

  module _ (filter_free : Filter → Mem → Mem) where
    -- One array of `filter_copy`: the copy goes into `dst`, or `dst` is freed.
    unfoldable pub copy_field {ℓ} :
        {A : Type ℓ} → M (Option (List A)) → List A → (List A → Filter) → Filter → M (Option Filter)
    copy_field copy xs put dst m =
        let (copied, m') = copy m in
        elim (owned xs copied) [ none ↦ (none, filter_free dst m') | some ys ↦ (some (put ys), m') ]

    -- `filter_copy` from its last array to its first. The failing array and those after it are
    -- still null when `dst` is freed.
    abbrev pub from_generic_tags : Filter → Filter → M (Option Filter)
    from_generic_tags src d =
        copy_field (copy_generic_tags src.generic_tags) src.generic_tags (put_generic_tags d) d
        >>= put_scalars src

    abbrev pub from_p_tags : Filter → Filter → M (Option Filter)
    from_p_tags src d =
        copy_field (copy_string_array src.p_tags) src.p_tags (put_p_tags d) d
        >>= from_generic_tags src

    abbrev pub from_e_tags : Filter → Filter → M (Option Filter)
    from_e_tags src d =
        copy_field (copy_string_array src.e_tags) src.e_tags (put_e_tags d) d >>= from_p_tags src

    abbrev pub from_kinds : Filter → Filter → M (Option Filter)
    from_kinds src d =
        copy_field (copy_int_array src.kinds) src.kinds (put_kinds d) d >>= from_e_tags src

    abbrev pub from_authors : Filter → Filter → M (Option Filter)
    from_authors src d =
        copy_field (copy_string_array src.authors) src.authors (put_authors d) d >>= from_kinds src

    unfoldable pub filter_copy : Filter → M (Option Filter)
    filter_copy src =
        copy_field (copy_string_array src.ids) src.ids (put_ids no_filter) no_filter
        >>= from_authors src

    -- `nostr_filter_free` of each filter of a list.
    abbrev pub free_filters : List Filter → Mem → Mem
    free_filters [] m = m
    free_filters (f ∷ fs) m = free_filters fs (filter_free f m)

    -- `copy_filters_to_slot`: on failure the copies made so far are freed.
    unfoldable pub copy_filters : List Filter → List Filter → M (Option (List Filter))
    copy_filters [] copies m = (some copies, m)
    copy_filters (f ∷ fs) copies m =
        let (copied, m') = filter_copy f m in
        elim copied [
          | none ↦ (none, free_filters copies m')
          | some g ↦ copy_filters fs (copies ++ g ∷ []) m'
        ]
