-- ===== src/Storage/Content.antt =====
-- The store as a dictionary from identifiers to the bytes of events, and what saving and deleting
-- do to it.
use wisp_esp.Base.{
  ℕ, ◌≡◌, ◌≢◌, Bool, sym, ap, subst, ◌∙◌, inl, inr, true, false, Option, none, some, arith, length,
  ◌==◌, Bool-cases, bytes_eq_sound, first_where, find_entry-some, find_entry-none, get_elem?,
  first_where-some,
}
use wisp_esp.Protocol.{Bytes}
use wisp_esp.Storage.Types.{
  IndexEntry, Engine, entries, FilePath, path_of, FileSystem, FileLaws, Library,
}
use wisp_esp.Storage.Ops.{is_live, find_index_entry, open_event_file, write_event_file}
use wisp_esp.Storage.Numbering.{Ascending-unique}
use wisp_esp.Storage.Invariant.{IsValid}

-- The live entry of an identifier.
abbrev pub lookup : Engine → Bytes → Option IndexEntry
lookup eng id = first_where (is_live id) (entries eng)

pub find_index_entry-some :
    (eng : Engine) (id : Bytes) (i : ℕ) (e : IndexEntry)
    → find_index_entry eng id ≡ some (i, e)
    → (get_elem? (entries eng) i ≡ some e) × (is_live id e ≡ true) × (lookup eng id ≡ some e)
unfolding find_index_entry
find_index_entry-some eng id i e h = find_entry-some (is_live id) (entries eng) i e h

pub find_index_entry-none :
    (eng : Engine) (id : Bytes) → find_index_entry eng id ≡ none → lookup eng id ≡ none
unfolding find_index_entry
find_index_entry-none eng id h = find_entry-none (is_live id) (entries eng) h

pub is_live-same : (id : Bytes) (e : IndexEntry) → is_live id e ≡ true → e.event_id ≡ id
is_live-same id e h = bytes_eq_sound e.event_id id (ground arith)

pub is_live-ne :
    (id id' : Bytes) (e : IndexEntry) → id' ≢ id → is_live id e ≡ true → is_live id' e ≡ false
is_live-ne id id' e ne h = elim (Bool-cases (is_live id' e)) [
  | inr off ↦ off
  | inl on ↦ absurd (ne (sym (is_live-same id' e on) ∙ is_live-same id e h))
]

-- The live entries of two identifiers have two files.
pub distinct_numbers :
    (eng : Engine) (id id' : Bytes) (e x : IndexEntry)
    → IsValid eng
    → id' ≢ id
    → lookup eng id ≡ some e
    → lookup eng id' ≡ some x
    → e.file_index ≢ x.file_index
distinct_numbers eng id id' e x v ne found found' number =
    let same =
      Ascending-unique 0 eng.next_file_index (entries eng) (is_live id) (is_live id') e x v.numbered
        found found' number in
    let mine = is_live-same id e (first_where-some (is_live id) (entries eng) e found) in
    let other = is_live-same id' x (first_where-some (is_live id') (entries eng) x found') in
    ne (sym other ∙ sym (ap (λ (k : IndexEntry). k.event_id) same) ∙ mine)

module _ (lib : Library) (fs : FileSystem) (laws : FileLaws fs) where
  open fs use {Files, read}

  -- What a dictionary lookup gives: the bytes of the file of the live entry.
  abbrev pub bytes_at : Option IndexEntry → Files → Option Bytes
  bytes_at none f = none
  bytes_at (some e) f = read (path_of e) f

  abbrev pub content : Engine → Files → Bytes → Option Bytes
  content eng f id = bytes_at (lookup eng id) f

  open_event_file-other :
      (p q : FilePath) (f : Files) → p ≢ q → read q (open_event_file lib fs p f).1 ≡ read q f
  unfolding open_event_file
  open_event_file-other p q f ne = elim (Bool-cases (fs.fopen_wb p f).0) [
    | inl e ↦ rw e (laws.open_other p q f ne)
    | inr e ↦
        rw e (laws.open_other p q _ ne ∙ laws.mkdir_keeps p.dir q _ ∙ laws.open_other p q f ne)
  ]

  -- An opened file was opened by `fopen` in one of the two states.
  open_event_file-opened :
      (p : FilePath) (f : Files)
      → (open_event_file lib fs p f).0 ≡ true
      → (g : Files) × ((fs.fopen_wb p g).0 ≡ true)
        × ((open_event_file lib fs p f).1 ≡ (fs.fopen_wb p g).1)
  unfolding open_event_file
  open_event_file-opened p f h = elim (Bool-cases (fs.fopen_wb p f).0) [
    | inl e ↦ (f, e, rw e)
    | inr e ↦ (fs.mkdir p.dir (fs.fopen_wb p f).1, (rw e at h), rw e)
  ]

  pub write_event_file_other :
      (p q : FilePath) (b : Bytes) (f : Files)
      → p ≢ q
      → read q (write_event_file lib fs p b f).1 ≡ read q f
  unfolding write_event_file
  write_event_file_other p q b f ne =
      let opened = open_event_file-other p q f ne in
      elim (Bool-cases (open_event_file lib fs p f).0) [
        | inr e ↦ rw e opened
        | inl e ↦
            let f' = (open_event_file lib fs p f).1 in
            let wrote =
              laws.close_other p q (fs.fwrite p b f').1 ne ∙ laws.write_other p q b f' ne in
            elim (Bool-cases ((fs.fwrite p b f').0 == length b)) [
              | inl done ↦ rw e (rw done (wrote ∙ opened))
              | inr short ↦ rw e (rw short (laws.unlink_other p q _ ne ∙ wrote ∙ opened))
            ]
      ]

  -- What `fclose` tells of the new file.
  abbrev pub flush : FilePath → Bytes → Files → Bool
  flush p b f = (fs.fclose p (fs.fwrite p b (open_event_file lib fs p f).1).1).0

  pub write_event_file_self :
      (p : FilePath) (b : Bytes) (f : Files)
      → (write_event_file lib fs p b f).0 ≡ true
      → flush p b f ≡ true
      → read p (write_event_file lib fs p b f).1 ≡ some b
  unfolding write_event_file
  write_event_file_self p b f h flushed = elim (Bool-cases (open_event_file lib fs p f).0) [
    | inr e ↦ absurd (let bad : false ≡ true = rw e at h in cc)
    | inl e ↦
        let (g, was, same) = open_event_file-opened p f e in
        let f' = (open_event_file lib fs p f).1 in
        elim (Bool-cases ((fs.fwrite p b f').0 == length b)) [
          | inr short ↦ absurd (let bad : false ≡ true = rw (e, short) at h in cc)
          | inl done ↦
              let whole : (fs.fwrite p b f').0 ≡ length b = ground arith in
              rw e (
                rw done (
                  subst (λ k. read p (fs.fclose p (fs.fwrite p b k).1).1 ≡ some b) (sym same)
                    (laws.write_self p b g was
                      (subst (λ k. (fs.fwrite p b k).0 ≡ length b) same whole)
                      (subst (λ k. (fs.fclose p (fs.fwrite p b k).1).0 ≡ true) same flushed))))
        ]
  ]
