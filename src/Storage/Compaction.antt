-- ===== src/Storage/Compaction.antt =====
-- `storage_compact_index`: the loop in place against a filter.
use mathlib.Core.List.{append_assoc, append-nil}
use native.Mathlib.Numerals.{add-one}
use wisp_esp.Base.{
  ℕ, zero, suc, ◌+◌, ◌≤◌, ◌<◌, ◌≡◌, refl, sym, ap, subst, ◌∙◌, inl, inr, Bool, true, false, ◌||◌,
  some, List, [], ◌∷◌, ◌++◌, arith, length, take, drop, set, get_elem?, ltb, ◌==◌, Bool-cases,
  first_where, count_where, bit, if◌then◌else◌, length-set, take-suc, take-set_next, drop-cons,
  drop-set, get_elem?-some,
}
use wisp_esp.Protocol.{Bytes}
use wisp_esp.Storage.Types.{
  IndexEntry, Engine, entries, is_deleted, FileSystem, FileLaws, Library, Nvs,
}
use wisp_esp.Storage.Ops.{is_live}
use wisp_esp.Storage.Sweep.{compact_loop, compact_locked, compact_index}
use wisp_esp.Storage.Numbering.{Ascending}
use wisp_esp.Storage.Invariant.{IsValid}
use wisp_esp.Storage.Content.{content}

-- The entries that are not flagged, in their order.
abbrev pub live_only : List IndexEntry → List IndexEntry
live_only [] = []
live_only (e ∷ es) = if is_deleted e then live_only es else e ∷ live_only es

-- What the loop has made of the array `es`, when it stops: `rounds` cells from `r` on were read.
record Compacted (rounds r w c : ℕ) (es : List IndexEntry) (out : List IndexEntry × ℕ × ℕ)
    : Type 0 where
  cells : take out.1 out.0 ≡ take w es ++ live_only (take rounds (drop r es))
  size : length out.0 ≡ length es
  gone : out.2 ≡ c + count_where is_deleted (take rounds (drop r es))
  total : out.1 + out.2 ≡ w + c + rounds

-- The array after the body of the loop at a cell that is kept.
abbrev moved : ℕ → ℕ → IndexEntry → List IndexEntry → List IndexEntry
moved w r e es = if w == r then es else set es w e

module _ (w r : ℕ) (e : IndexEntry) (es : List IndexEntry) (got : get_elem? es r ≡ some e)
    (le : w ≤ r) (bound : r < length es) where
  moved-size : length (moved w r e es) ≡ length es
  moved-size = elim (Bool-cases (w == r)) [ inl h ↦ rw h refl | inr h ↦ rw h (length-set es w e) ]

  moved-rest : drop (suc r) (moved w r e es) ≡ drop (suc r) es
  moved-rest = elim (Bool-cases (w == r)) [
    | inl h ↦ rw h refl
    | inr h ↦ rw h (drop-set (suc r) es w e (omega arith))
  ]

  moved-kept : take (suc w) (moved w r e es) ≡ take w es ++ e ∷ []
  moved-kept = elim (Bool-cases (w == r)) [
    | inl h ↦
        let same : r ≡ w = ground arith in
        rw h (take-suc w es e (subst (λ k. get_elem? es k ≡ some e) same got))
    | inr h ↦ rw h (take-set_next w es e (omega arith))
  ]

  module _ (rounds c : ℕ) where
    step :
        compact_loop (suc rounds) r w c es
        ≡ compact_loop rounds
            (suc r)
            (if is_deleted e then w else w + 1)
            (if is_deleted e then c + 1 else c)
            (if is_deleted e || (w == r) then es else set es w e)
    unfolding compact_loop
    step = rw (got, compact_loop) (rw (add-one r) refl)

    step_dead :
        is_deleted e ≡ true
        → compact_loop (suc rounds) r w c es ≡ compact_loop rounds (suc r) w (c + 1) es
    step_dead h = step ∙ rw h refl

    step_alive :
        is_deleted e ≡ false
        → compact_loop (suc rounds) r w c es
          ≡ compact_loop rounds (suc r) (suc w) c (moved w r e es)
    step_alive h = step ∙ rw h (rw (add-one w) refl)

    dead-Compacted :
        (out : List IndexEntry × ℕ × ℕ)
        → is_deleted e ≡ true
        → Compacted rounds (suc r) w (c + 1) es out
        → Compacted (suc rounds) r w c es out
    unfolding count_where
    dead-Compacted out h p =
        let front = drop-cons r es e got in
        record {
          cells = rw front (rw h p.cells);
          size = p.size;
          gone = rw front (omega (arith, p.gone, ap bit h));
          total = omega (arith, p.total);
        }

    alive-Compacted :
        (out : List IndexEntry × ℕ × ℕ)
        → is_deleted e ≡ false
        → Compacted rounds (suc r) (suc w) c (moved w r e es) out
        → Compacted (suc rounds) r w c es out
    unfolding count_where
    alive-Compacted out h p =
        let front = drop-cons r es e got in
        record {
          cells = rw front (
              rw h (
                p.cells
                ∙ rw (moved-kept, moved-rest)
                    (append_assoc (take w es) (e ∷ [])
                      (live_only (take rounds (drop (suc r) es))))));
          size = p.size ∙ moved-size;
          gone = rw front (
              omega (
                arith,
                p.gone,
                ap bit h,
                ap (λ xs. count_where is_deleted (take rounds xs)) moved-rest,
              ));
          total = omega (arith, p.total);
        }

compact_loop-Compacted :
    (rounds r w c : ℕ) (es : List IndexEntry)
    → w ≤ r
    → r + rounds ≤ length es
    → Compacted rounds r w c es (compact_loop rounds r w c es)
unfolding compact_loop count_where
compact_loop-Compacted zero r w c es le bound = record {
  cells = sym (append-nil (take w es));
  size = refl;
  gone = omega arith;
  total = omega arith;
}
compact_loop-Compacted (suc rounds) r w c es le bound =
    let inside : r < length es = omega arith in
    let (e, got) = get_elem?-some es r inside in
    elim (Bool-cases (is_deleted e)) [
      | inl h ↦
          subst (Compacted (suc rounds) r w c es)
            (sym (step_dead w r e es got le inside rounds c h))
            (dead-Compacted w r e es got le inside rounds c _ h
              (compact_loop-Compacted rounds (suc r) w (c + 1) es (omega arith) (omega arith)))
      | inr h ↦
          subst (Compacted (suc rounds) r w c es)
            (sym (step_alive w r e es got le inside rounds c h))
            (alive-Compacted w r e es got le inside rounds c _ h (
              compact_loop-Compacted rounds (suc r) (suc w) c (moved w r e es) (omega arith)
                (omega (arith, moved-size w r e es got le inside))))
    ]

-- The filter keeps what the operations of the engine look at.
first_where-live_only :
    (id : Bytes) (es : List IndexEntry)
    → first_where (is_live id) (live_only es) ≡ first_where (is_live id) es
unfolding first_where
first_where-live_only id [] = refl
first_where-live_only id (e ∷ es) = ground (arith, first_where-live_only id es)

count-live_only :
    (p : IndexEntry → Bool) (es : List IndexEntry) → count_where p (live_only es) ≤ count_where p es
unfolding count_where
count-live_only p [] = omega arith
count-live_only p (e ∷ es) = ground (arith, count-live_only p es)

Ascending-mono :
    (lo lo' hi : ℕ) (es : List IndexEntry) → lo ≤ lo' → Ascending lo' hi es → Ascending lo hi es
Ascending-mono lo lo' hi [] le h = omega arith
Ascending-mono lo lo' hi (e ∷ es) le h = (omega (arith, h.0), h.1)

Ascending-live_only :
    (lo hi : ℕ) (es : List IndexEntry) → Ascending lo hi es → Ascending lo hi (live_only es)
Ascending-live_only lo hi [] h = h
Ascending-live_only lo hi (e ∷ es) h =
    let rest = Ascending-live_only (suc e.file_index) hi es h.1 in
    elim (Bool-cases (is_deleted e)) [
      | inl dead ↦
          rw dead (Ascending-mono lo (suc e.file_index) hi (live_only es) (omega (arith, h.0)) rest)
      | inr alive ↦ rw alive (h.0, rest)
    ]

module _ (nvs : Nvs) (eng : Engine) (n : nvs.Store) (v : IsValid eng) where
  unlocked : compact_index nvs eng n ≡ compact_locked nvs eng n
  unfolding compact_index
  unlocked = let h = v.ready in ground arith

  looped : Compacted eng.index_count 0 0 0 eng.index (compact_loop eng.index_count 0 0 0 eng.index)
  looped =
      compact_loop-Compacted eng.index_count 0 0 0 eng.index (omega arith)
        (omega (arith, v.size, v.fits))

  -- What the engine is afterwards: the count follows in both branches.
  compact_locked-result :
      (entries (compact_locked nvs eng n).1 ≡ live_only (entries eng))
      × (length (compact_locked nvs eng n).1.index ≡ eng.max_index_entries)
      × ((compact_locked nvs eng n).0 ≡ count_where is_deleted (entries eng))
      × ((compact_locked nvs eng n).1.index_count ≤ eng.index_count)
  unfolding compact_locked
  compact_locked-result =
      let c = compact_loop eng.index_count 0 0 0 eng.index in
      let size = looped.size ∙ v.size in
      let gone : c.2 ≡ count_where is_deleted (entries eng) = omega (arith, looped.gone) in
      elim (Bool-cases (ltb 0 c.2)) [
        | inl some_gone ↦ rw some_gone (looped.cells, size, gone, omega (arith, looped.total))
        | inr none_gone ↦
            let all_kept : c.1 ≡ eng.index_count = ground (arith, looped.total) in
            rw none_gone
              (ap (λ k. take k c.0) (sym all_kept) ∙ looped.cells, size, gone, omega arith)
      ]

  locked-fields :
      ((compact_locked nvs eng n).1.initialized ≡ eng.initialized)
      × ((compact_locked nvs eng n).1.max_index_entries ≡ eng.max_index_entries)
      × ((compact_locked nvs eng n).1.next_file_index ≡ eng.next_file_index)
  unfolding compact_locked
  locked-fields = ground arith

  -- `storage_compact_index` on a valid engine leaves the entries that are not flagged, in their
  -- order, and returns how many were flagged.
  pub compact_index-live_only :
      (entries (compact_index nvs eng n).1 ≡ live_only (entries eng))
      × ((compact_index nvs eng n).0 ≡ count_where is_deleted (entries eng))
  compact_index-live_only =
      let (cells, size, gone, fewer) = compact_locked-result in rw unlocked (cells, gone)

  -- `storage_compact_index` keeps a valid index valid.
  pub compact_index-IsValid : IsValid (compact_index nvs eng n).1
  compact_index-IsValid =
      let (cells, size, gone, fewer) = compact_locked-result in
      let (ready, most, next) = locked-fields in
      rw unlocked (record {
        ready = ready ∙ v.ready;
        size = size ∙ sym most;
        small = omega (arith, most, v.small);
        fits = omega (arith, most, fewer, v.fits);
        single =
            λ id. rw cells (omega (arith, count-live_only (is_live id) (entries eng), v.single id));
        numbered =
            rw (cells, next) (Ascending-live_only 0 eng.next_file_index (entries eng) v.numbered);
        numbers = omega (arith, next, v.numbers);
      })

  -- After `storage_compact_index` on a valid engine the dictionary is as before.
  pub compact_index-content :
      (lib : Library) (fs : FileSystem) (laws : FileLaws fs) (f : fs.Files) (id : Bytes)
      → content lib fs laws (compact_index nvs eng n).1 f id ≡ content lib fs laws eng f id
  compact_index-content lib fs laws f id =
      rw compact_index-live_only.0 (rw (first_where-live_only id (entries eng)) refl)
