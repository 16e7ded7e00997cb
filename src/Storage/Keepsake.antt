-- ===== src/Storage/Keepsake.antt =====
-- `storage_query_events` of main/storage_engine.c, which drops expired entries on its way: what it
-- leaves in the dictionary.
use wisp_esp.Base.{
  ℕ, zero, suc, ◌≤◌, ◌<◌, ◌≡◌, refl, sym, ap, ◌∙◌, inl, inr, Bool, true, false, some, List, [], ◌∷◌,
  arith, length, ltb, set, get_elem?, to_u32, All-get, if_ind, Bool-cases, Option-cases, bit,
  count_where, count_where-pos, first_where, first_where-set_other, get_elem?-take, get_elem?-some,
  if◌then◌else◌,
}
use wisp_esp.Protocol.{Bytes, Filter}
use wisp_esp.Storage.Types.{
  IndexEntry, Engine, entries, is_deleted, mark_deleted, FilePath, path_of, FileSystem, FileLaws,
  Library,
}
use wisp_esp.Storage.Ops.{is_live, load_event_from_file}
use wisp_esp.Storage.Sweep.{is_expired, is_due, with_index}
use wisp_esp.Storage.Query.{
  max_results, index_matches_filter, Search, query_entry, query_step, query_loop, query_locked,
  query_events,
}
use wisp_esp.Storage.Numbering.{path_of-ne}
use wisp_esp.Storage.Invariant.{IsValid, is_live-mark_deleted, entries-put_entry, put_entry-IsValid}
use wisp_esp.Storage.Content.{lookup, content}
use wisp_esp.Storage.Purge.{apart}

-- With at most one element that passes a test, any that passes is the first.
sole :
    (p : IndexEntry → Bool) (es : List IndexEntry) (i : ℕ) (y x : IndexEntry)
    → count_where p es ≤ 1
    → get_elem? es i ≡ some y
    → p y ≡ true
    → first_where p es ≡ some x
    → y ≡ x
unfolding first_where count_where
sole p [] i y x one got hit found = cc
sole p (z ∷ zs) zero y x one got hit found =
    let same : z ≡ y = cc in
    let hit' : p z ≡ true = rw same hit in
    let first : z ≡ x = ground (arith, hit') in sym same ∙ first
sole p (z ∷ zs) (suc i) y x one got hit found = elim (Bool-cases (p z)) [
  | inl e ↦ absurd (omega (arith, ap bit e, count_where-pos p zs i y got hit))
  | inr e ↦
      let later : first_where p zs ≡ some x = ground (arith, e) in
      sole p zs i y x (omega (arith, ap bit e)) got hit later
]

module _ (lib : Library) (fs : FileSystem) (laws : FileLaws fs) (filter : Filter) (now : ℕ)
    (mem : FilePath → Bool) where
  open fs use {Files, read}

  -- The body of the loop either leaves the index and the files, or drops an entry that is due.
  data Effect (i : ℕ) (e : IndexEntry) (st out : Search lib fs) : Type 0 where
    left : out.cells ≡ st.cells → out.files ≡ st.files → Effect i e st out
    dropped :
        is_due now e ≡ true
        → out.cells ≡ set st.cells i (mark_deleted e)
        → out.files ≡ fs.unlink (path_of e) st.files
        → Effect i e st out

  query_entry-Effect :
      (i : ℕ) (e : IndexEntry) (st : Search lib fs)
      → Effect i e st (query_entry lib fs filter now mem i e st)
  unfolding query_entry
  query_entry-Effect i e st =
      let Good = λ (out : Search lib fs). Effect i e st out in
      if_ind Good (is_deleted e) (λ d. left refl refl)
        λ d.
          if_ind Good (is_expired now e) (λ x. dropped (rw (d, x) refl) refl refl)
            λ x.
              if_ind Good (index_matches_filter lib e filter)
                (λ k.
                  elim (Option-cases
                    (load_event_from_file lib fs (mem (path_of e)) (path_of e) st.files)) [
                      | inl l ↦ rw (l, query_entry) (left refl refl)
                      | inr (ev, l) ↦
                          rw (l, query_entry)
                            (if_ind Good (lib.filter_matches filter ev) (λ m. left refl refl)
                              λ m. left refl refl)
                    ])
                λ k. left refl refl

  module _ (eng : Engine) (id : Bytes) (x : IndexEntry) (off : is_due now x ≡ false)
      (f : Files) where
    -- The entry `x` is still found, and its file reads as it did in `f`.
    record Found (st : Search lib fs) : Type 0 where
      valid : IsValid (with_index eng st.cells)
      found : lookup (with_index eng st.cells) id ≡ some x
      same : read (path_of x) st.files ≡ read (path_of x) f

    Effect-Found :
        (i : ℕ) (e : IndexEntry) (st out : Search lib fs)
        → i < eng.index_count
        → get_elem? st.cells i ≡ some e
        → Effect i e st out
        → Found st
        → Found out
    Effect-Found i e st out lt got (left cells files) k = record {
      valid = rw cells k.valid;
      found = rw cells k.found;
      same = rw files k.same;
    }
    Effect-Found i e st out lt got (dropped due cells files) k =
        let here = with_index eng st.cells in
        let inside : get_elem? (entries here) i ≡ some e =
          get_elem?-take eng.index_count st.cells i lt ∙ got in
        let far =
          All-get _ (entries here) i e
            (apart now 0 eng.next_file_index (entries here) (is_live id) x k.valid.numbered k.found
              off)
            inside due in
        let dead : is_live id e ≡ false = elim (Bool-cases (is_live id e)) [
          | inr no_hit ↦ no_hit
          | inl hit ↦ absurd (
              far (
                ap (λ (y : IndexEntry). y.file_index)
                  (sole (is_live id) (entries here) i e x (k.valid.single id) inside hit k.found)))
        ] in
        record {
          valid = rw cells (put_entry-IsValid here k.valid i e inside);
          found = rw cells (
              ap (first_where (is_live id))
                (entries-put_entry here k.valid i e (mark_deleted e) inside)
              ∙ first_where-set_other (is_live id) (entries here) i e (mark_deleted e) inside dead
                  (is_live-mark_deleted id e)
              ∙ k.found);
          same =
              rw files
                (laws.unlink_other (path_of e) (path_of x) st.files (path_of-ne e x far) ∙ k.same);
        }

    query_loop-Found :
        (limit i : ℕ) (st : Search lib fs)
        → i ≤ eng.index_count
        → Found st
        → Found (query_loop lib fs filter now mem limit i st)
    unfolding query_loop query_step
    query_loop-Found limit zero st le k = k
    query_loop-Found limit (suc i) st le k =
        if_ind Found (ltb (length st.found) limit)
          (λ room.
            let (e, got) = get_elem?-some st.cells i (omega (arith, k.valid.size, k.valid.fits)) in
            query_loop-Found limit i (query_step lib fs filter now mem i st) (omega arith) (
              rw (got, query_step)
                (Effect-Found i e st _ (omega arith) got (query_entry-Effect i e st) k)))
          λ full. k

module _ (lib : Library) (fs : FileSystem) (laws : FileLaws fs) (filter : Filter) (limit : ℕ)
    (mem : FilePath → Bool) (time : ℕ) (f : fs.Files) (eng : Engine) (v : IsValid eng) (id : Bytes)
    (x : IndexEntry) where
  unlocked :
      (room : Bool)
      → query_events lib fs eng filter limit room mem time f
        ≡ query_locked lib fs eng filter limit room mem time f
  unfolding query_events
  unlocked room = let h = v.ready in ground arith

  locked_keeps :
      (room : Bool)
      → lookup eng id ≡ some x
      → is_due (to_u32 time) x ≡ false
      → let out = query_locked lib fs eng filter limit room mem time f in
        (lookup out.1 id ≡ some x) × (fs.read (path_of x) out.2 ≡ fs.read (path_of x) f)
  unfolding query_locked
  locked_keeps false found off = (found, refl)
  locked_keeps true found off =
      let capped = if ltb max_results limit then max_results else limit in
      let k =
        query_loop-Found lib fs laws filter (to_u32 time) mem eng id x off f capped eng.index_count
          (record { cells = eng.index; files = f; found = [] }) (omega arith)
          (record { valid = v; found = found; same = refl }) in
      (k.found, k.same)

  pub query_events_keeps_entry :
      (room : Bool)
      → lookup eng id ≡ some x
      → is_due (to_u32 time) x ≡ false
      → let out = query_events lib fs eng filter limit room mem time f in
        (lookup out.1 id ≡ some x) × (fs.read (path_of x) out.2 ≡ fs.read (path_of x) f)
  query_events_keeps_entry room found off = rw (unlocked room) (locked_keeps room found off)

  -- On a valid engine and a file system that keeps its laws, `storage_query_events` leaves each event
  -- that has a live entry which has not expired in the dictionary as it was, whatever it is asked for
  -- and also where it runs out of memory.
  pub query_events_keeps :
      (room : Bool)
      → lookup eng id ≡ some x
      → is_due (to_u32 time) x ≡ false
      → let out = query_events lib fs eng filter limit room mem time f in
        content lib fs laws out.1 out.2 id ≡ content lib fs laws eng f id
  query_events_keeps room found off =
      let (still, same) = query_events_keeps_entry room found off in rw (still, found) same
