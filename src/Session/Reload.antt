-- ===== src/Session/Reload.antt =====
-- Save and loadLocked of conversation-file/session/manager.go are a round trip.
use exoclaw_go.Prelude.{
  ◌+◌, ◌≡◌, refl, sym, ap, ap₂, ◌∙◌, String, false, Option, some, List, [], ◌∷◌, ◌++◌, append_assoc,
  append-nil, map, if◌then◌else◌, if-ind, ◌&&◌, ltb, ◌==◌, length, All, arith,
}
use exoclaw_go.Json.{Fields}
use exoclaw_go.Session.Store.{
  Session, SessionManager, session_path, clean_lines, header, read_messages, Scan, scan_metadata,
  scan_message, scan_line, scan_step, scan_loop, session_of, empty_scan, load_lines, load_session,
  total_messages, load_range, save,
}
use exoclaw_go.Session.Log.{
  IsEntry, IsHeader, metadata_of-header, metadata_of-entry, clean-cons, clean-entries,
  files-write_file,
}

module _ (encode : Fields → String) (decode : String → Option Fields)
    (reread : Fields → Fields) where
  scan_step-entry :
      (m : Fields) (a : Scan encode decode)
      → IsEntry encode decode reread m
      → scan_step encode decode false (encode m) a ≡ scan_message encode decode false (encode m) a
  unfolding scan_step scan_line
  scan_step-entry m a h = rw (metadata_of-entry encode decode reread m h) (
      if-ind (λ r. r ≡ scan_message encode decode false (encode m) a) (a.total == 0) _ _ (λ _. refl)
        (λ _. refl))

  scan_step-header :
      (h : Fields)
      → IsHeader encode decode reread h
      → scan_step encode decode false (encode h) (empty_scan encode decode)
        ≡ scan_metadata encode decode (reread h) (empty_scan encode decode)
  unfolding scan_step scan_line
  scan_step-header h i = rw (metadata_of-header encode decode reread h i) refl

  -- The scan of messages alone: what it buffers and what it counts.
  scan_loop-entries :
      (log : List Fields) (a : Scan encode decode)
      → All (IsEntry encode decode reread) log
      → (((scan_loop encode decode false (map encode log) a).buffered
            ≡ a.buffered ++ map encode log)
          × ((scan_loop encode decode false (map encode log) a).total ≡ a.total + length log))
  unfolding scan_loop
  scan_loop-entries [] a h = (sym (append-nil a.buffered), omega arith)
  scan_loop-entries (m ∷ log) a h =
      let step = scan_step-entry m a h.0 in
      let rest = scan_loop-entries log (scan_message encode decode false (encode m) a) h.1 in
      let scan : Scan encode decode → Scan encode decode =
        λ b. scan_loop encode decode false (map encode log) b in
      (
        ap (λ b. (scan b).buffered) step
            ∙ rest.0
            ∙ append_assoc a.buffered (encode m ∷ []) (map encode log),
        omega (arith, ap (λ b. (scan b).total) step, rest.1),
      )

  read_messages-entries :
      (log : List Fields)
      → All (IsEntry encode decode reread) log
      → read_messages encode decode (map encode log) ≡ map reread log
  unfolding read_messages
  read_messages-entries [] h = refl
  read_messages-entries (m ∷ log) h =
      rw h.0.0.decoded (ap (◌∷◌ (reread m)) (read_messages-entries log h.1))

  abbrev saved_lines : Session → List String
  saved_lines s = encode (header s) ∷ map encode s.messages

  files-save :
      (s : Session) (mgr : SessionManager)
      → mgr.streaming_history ≡ false
      → (save encode decode s mgr).files (session_path s.key) ≡ some (saved_lines s)
  unfolding save
  files-save s mgr streaming =
      files-write_file encode decode reread (session_path s.key) _ mgr
      ∙ ap
          (λ b. some (
            encode (header s)
            ∷ map encode (
                if b && ltb 0 (total_messages s)
                then load_range encode decode s.key 0 (total_messages s) mgr
                else s.messages)))
          streaming

  -- A session without streaming that was saved is loaded with its messages, as JSON reads them back,
  -- in their order, and with their number.
  pub load_session-save :
      (now : String) (s : Session) (mgr : SessionManager)
      → mgr.streaming_history ≡ false
      → IsHeader encode decode reread (header s)
      → All (IsEntry encode decode reread) s.messages
      → (t : Session) × (load_session encode decode now s.key (save encode decode s mgr) ≡ some t)
        × (t.messages ≡ map reread s.messages)
        × (t.total ≡ length s.messages)
  unfolding load_session load_lines scan_loop
  load_session-save now s mgr streaming i h =
      let start = scan_metadata encode decode (reread (header s)) (empty_scan encode decode) in
      let scan = scan_loop encode decode false (map encode s.messages) start in
      let (buffered, total) = scan_loop-entries s.messages start h in
      (
        session_of encode decode now s.key scan,
        ap₂ (load_lines encode decode now s.key) (kept streaming) (files-save s mgr streaming)
            ∙ ap
                (λ ls. some (
                  session_of encode decode now s.key
                    (scan_loop encode decode false ls (empty_scan encode decode))))
                clean
            ∙ ap
                (λ b. some (
                  session_of encode decode now s.key
                    (scan_loop encode decode false (map encode s.messages) b)))
                (scan_step-header (header s) i),
        ap (read_messages encode decode) buffered ∙ read_messages-entries s.messages h,
        omega (arith, total),
      )
    where
      kept : mgr.streaming_history ≡ false → (save encode decode s mgr).streaming_history ≡ false
      kept e = unfold save in e

      clean : clean_lines (saved_lines s) ≡ saved_lines s
      clean =
          clean-cons encode decode reread (header s) (map encode s.messages) i.0
          ∙ ap (◌∷◌ (encode (header s))) (clean-entries encode decode reread s.messages h)
