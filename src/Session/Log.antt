-- ===== src/Session/Log.antt =====
-- The session files of conversation-file/session/manager.go stand for append-only logs of messages.
use exoclaw_go.Prelude.{
  ℕ, zero, suc, ◌+◌, ◌-◌, ◌≤◌, ◌≡◌, refl, sym, ap, ◌∙◌, String, true, false, Option, none, some,
  List, [], ◌∷◌, ◌++◌, map, str_eq, eq_refl, leb, length, take, take-all, drop, All, arith,
  Bool-cases, inl, inr,
}
use exoclaw_go.Prelude.Text.{is_empty, trim_space, contains}
use exoclaw_go.Json.{Fields, get, str_of}
use exoclaw_go.Session.Store.{
  Session, SessionManager, session_path, clean_lines, lines_of, header, metadata_of,
  unless_metadata, range_loop, load_range, count_loop, count_of, count, or_header, write_file,
  save_append, invalidate,
}

module _ (encode : Fields → String) (decode : String → Option Fields)
    (reread : Fields → Fields) where
  -- What encoding/json does with one map: a line with no blanks around it, that reads back as
  -- `reread` of the map.
  pub record IsCoded (m : Fields) : Type 0 where
    pub trimmed : trim_space (encode m) ≡ encode m
    pub full : is_empty (encode m) ≡ false
    pub decoded : decode (encode m) ≡ some (reread m)

  -- A message, which is no metadata.
  abbrev pub IsEntry : Fields → Type 0
  IsEntry m = IsCoded m × (str_eq (str_of (get "_type" (reread m))) "metadata" ≡ false)

  -- The header, whose text names "_type".
  abbrev pub IsHeader : Fields → Type 0
  IsHeader h =
      IsCoded h
      × (str_eq (str_of (get "_type" (reread h))) "metadata" ≡ true)
      × (contains "\"_type\"" (encode h) ≡ true)

  -- The abstract log of a session: absent, or a list of messages.
  abbrev pub Represents : Option (List Fields) → String → SessionManager → Type 0
  Represents none key mgr = mgr.files (session_path key) ≡ none
  Represents (some log) key mgr =
      (h : Fields) × IsHeader h
      × (mgr.files (session_path key) ≡ some (encode h ∷ map encode log))
      × All IsEntry log

  abbrev pub append_log : List Fields → Option (List Fields) → List Fields
  append_log ms none = ms
  append_log ms (some log) = log ++ ms

  abbrev pub entries : Option (List Fields) → List Fields
  entries none = []
  entries (some log) = log

  pub metadata_of-header :
      (h : Fields) → IsHeader h → metadata_of encode decode (encode h) ≡ some (reread h)
  unfolding metadata_of
  metadata_of-header h i = rw (i.2, i.0.decoded, i.1) refl

  pub metadata_of-entry : (m : Fields) → IsEntry m → metadata_of encode decode (encode m) ≡ none
  unfolding metadata_of
  metadata_of-entry m i = elim (Bool-cases (contains "\"_type\"" (encode m))) [
    | inl e ↦ rw (e, i.0.decoded, i.1) refl
    | inr e ↦ rw e refl
  ]

  pub clean-cons :
      (m : Fields) (ls : List String)
      → IsCoded m
      → clean_lines (encode m ∷ ls) ≡ encode m ∷ clean_lines ls
  unfolding clean_lines
  clean-cons m ls i = rw (i.trimmed, i.full) refl

  pub clean-entries :
      (log : List Fields) → All IsEntry log → clean_lines (map encode log) ≡ map encode log
  unfolding clean_lines
  clean-entries [] a = refl
  clean-entries (m ∷ log) a =
      clean-cons m (map encode log) a.0.0 ∙ ap (◌∷◌ (encode m)) (clean-entries log a.1)

  lines-Represents :
      (log : List Fields) (key : String) (mgr : SessionManager) (r : Represents (some log) key mgr)
      → lines_of (mgr.files (session_path key)) ≡ encode r.0 ∷ map encode log
  lines-Represents log key mgr (h, i, file, a) =
      rw file (clean-cons h (map encode log) i.0 ∙ ap (◌∷◌ (encode h)) (clean-entries log a))

  take-none : {A : Type 0} (n : ℕ) → take {A = A} n [] ≡ []
  take-none zero = refl
  take-none (suc n) = refl

  drop-none : {A : Type 0} (n : ℕ) → drop {A = A} n [] ≡ []
  drop-none zero = refl
  drop-none (suc n) = refl

  -- Behind the start: up to `stop`, where `idx` are passed already.
  range_loop-inside :
      (start stop idx : ℕ) (log : List Fields)
      → All IsEntry log
      → start ≤ idx
      → range_loop encode decode start stop idx (map encode log)
        ≡ map reread (take (stop - idx) log)
  unfolding range_loop unless_metadata
  range_loop-inside start stop idx [] a le = rw (take-none {A = Fields} (stop - idx)) refl
  range_loop-inside start stop idx (m ∷ log) a le = elim (Bool-cases (leb stop idx)) [
    | inl e ↦ let z : stop - idx ≡ 0 = ground arith in rw (metadata_of-entry m a.0, e, z) refl
    | inr e ↦
        let z : stop - idx ≡ suc (stop - suc idx) = ground arith in
        let i : leb start idx ≡ true = ground arith in
        rw (metadata_of-entry m a.0, e, z, i, a.0.0.decoded)
          (ap (◌∷◌ (reread m)) (range_loop-inside start stop (suc idx) log a.1 (omega arith)))
  ]

  -- Before it, the messages up to the start are passed over.
  range_loop-before :
      (start stop idx : ℕ) (log : List Fields)
      → All IsEntry log
      → idx ≤ start
      → range_loop encode decode start stop idx (map encode log)
        ≡ map reread (take (stop - start) (drop (start - idx) log))
  unfolding range_loop unless_metadata
  range_loop-before start stop idx [] a le =
      rw (drop-none {A = Fields} (start - idx), take-none {A = Fields} (stop - start)) refl
  range_loop-before start stop idx (m ∷ log) a le = elim (Bool-cases (leb start idx)) [
    | inl e ↦
        let z : start - idx ≡ 0 = ground arith in
        let same : stop - start ≡ stop - idx = ground arith in
        rw (z, same) (range_loop-inside start stop idx (m ∷ log) a (ground arith))
    | inr e ↦
        let z : start - idx ≡ suc (start - suc idx) = ground arith in
        let later = range_loop-before start stop (suc idx) log a.1 (ground arith) in
        elim (Bool-cases (leb stop idx)) [
          | inl d ↦
              let none_left : stop - start ≡ 0 = ground arith in
              rw (metadata_of-entry m a.0, d, none_left) refl
          | inr d ↦ rw (metadata_of-entry m a.0, d, e, z) later
        ]
  ]

  count_loop-entries :
      (total : ℕ) (log : List Fields)
      → All IsEntry log
      → count_loop encode decode total (map encode log) ≡ total + length log
  unfolding count_loop unless_metadata
  count_loop-entries total [] a = omega arith
  count_loop-entries total (m ∷ log) a =
      ground (arith, metadata_of-entry m a.0, count_loop-entries (suc total) log a.1)

  -- LoadRange is the slice of the log.
  pub load_range-Represents :
      (log : List Fields) (key : String) (mgr : SessionManager) (start stop : ℕ)
      → Represents (some log) key mgr
      → load_range encode decode key start stop mgr
        ≡ map reread (take (stop - start) (drop start log))
  unfolding load_range
  load_range-Represents log key mgr start stop r =
      ap (range_loop encode decode start stop 0) (lines-Represents log key mgr r)
      ∙ skip_header
      ∙ range_loop-before start stop 0 log r.3 (omega arith)
      ∙ ap (λ n. map reread (take (stop - start) (drop n log))) minus_zero
    where
      minus_zero : start - 0 ≡ start
      minus_zero = omega arith

      skip_header :
          range_loop encode decode start stop 0 (encode r.0 ∷ map encode log)
          ≡ range_loop encode decode start stop 0 (map encode log)
      skip_header = unfold range_loop unless_metadata in rw (metadata_of-header r.0 r.1) refl

  -- Count of a session that is not cached is the length of the log.
  pub count-Represents :
      (log : List Fields) (key : String) (mgr : SessionManager)
      → Represents (some log) key mgr
      → mgr.cache key ≡ none
      → count encode decode key mgr ≡ length log
  unfolding count count_of count_loop unless_metadata
  count-Represents log key mgr r uncached =
      rw (uncached, lines-Represents log key mgr r, metadata_of-header r.0 r.1)
        (omega (arith, count_loop-entries 0 log r.3))

  pub files-write_file :
      (path : String) (lines : List String) (mgr : SessionManager)
      → (write_file encode decode path lines mgr).files path ≡ some lines
  files-write_file path lines mgr = rw (eq_refl path) refl

  map-append : (xs ys : List Fields) → map encode (xs ++ ys) ≡ map encode xs ++ map encode ys
  map-append [] ys = refl
  map-append (x ∷ xs) ys = ap (◌∷◌ (encode x)) (map-append xs ys)

  All-append : (xs ys : List Fields) → All IsEntry xs → All IsEntry ys → All IsEntry (xs ++ ys)
  All-append [] ys a b = b
  All-append (x ∷ xs) ys a b = (a.0, All-append xs ys a.1 b)

  -- SaveAppend is append on the log; a session without a file gets one.
  pub save_append-Represents :
      (o : Option (List Fields)) (s : Session) (ms : List Fields) (mgr : SessionManager)
      → Represents o s.key mgr
      → IsHeader (header s)
      → All IsEntry ms
      → Represents (some (append_log ms o)) s.key (save_append encode decode s ms mgr)
  unfolding save_append
  save_append-Represents none s ms mgr r i a = (
    header s,
    i,
    files-write_file (session_path s.key) _ mgr
        ∙ ap (λ f. some (or_header encode decode s f ++ map encode ms)) r,
    a,
  )
  save_append-Represents (some log) s ms mgr r i a = (
    r.0,
    r.1,
    files-write_file (session_path s.key) _ mgr
        ∙ ap (λ f. some (or_header encode decode s f ++ map encode ms)) r.2
        ∙ ap (λ l. some (encode r.0 ∷ l)) (sym (map-append log ms)),
    All-append log ms r.3 a,
  )

  -- The file of a session implements an append-only log: after SaveAppend it stands for the log with
  -- the messages added (for the messages alone, where there was no file), LoadRange returns the slice
  -- of that log, and Count, once the session is no longer cached, its length.
  pub save_append-refines :
      (o : Option (List Fields)) (s : Session) (ms : List Fields) (mgr : SessionManager)
      (start stop : ℕ)
      → Represents o s.key mgr
      → IsHeader (header s)
      → All IsEntry ms
      → let log = append_log ms o in
        let mgr' = save_append encode decode s ms mgr in
        Represents (some log) s.key mgr'
        × (load_range encode decode s.key start stop mgr'
            ≡ map reread (take (stop - start) (drop start log)))
        × (count encode decode s.key (invalidate encode decode s.key mgr') ≡ length log)
  unfolding invalidate
  save_append-refines o s ms mgr start stop r i a =
      let r' = save_append-Represents o s ms mgr r i a in
      (
        r',
        load_range-Represents (append_log ms o) s.key (save_append encode decode s ms mgr) start
            stop r',
        count-Represents (append_log ms o) s.key
            (invalidate encode decode s.key (save_append encode decode s ms mgr)) r'
            (rw (eq_refl s.key) refl),
      )

  -- For a cached session Count is what it was before SaveAppend, while the file has all the messages:
  -- what is appended to a session in use is never counted.
  pub count-save_append_cached :
      (o : Option (List Fields)) (s : Session) (ms : List Fields) (mgr : SessionManager)
      → mgr.cache s.key ≡ some s
      → Represents o s.key mgr
      → IsHeader (header s)
      → All IsEntry ms
      → let mgr' = save_append encode decode s ms mgr in
        (count encode decode s.key mgr' ≡ count encode decode s.key mgr)
        × (load_range encode decode s.key 0 (length (append_log ms o)) mgr'
            ≡ map reread (append_log ms o))
  unfolding count count_of save_append
  count-save_append_cached o s ms mgr cached r i a = (
    rw cached refl,
    load_range-Represents (append_log ms o) s.key _ 0 (length (append_log ms o))
          (save_append-Represents o s ms mgr r i a)
        ∙ ap (map reread) (take-all (length (append_log ms o) - 0) (append_log ms o) (omega arith)),
  )
