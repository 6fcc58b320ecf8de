-- ===== src/Conversation/History.antt =====
-- What a conversation of conversation-file/conversation.go appended is what its next prompt is built from.
use exoclaw_go.Prelude.{
  ℕ, ◌-◌, ◌≤◌, ◌≡◌, refl, sym, ap, ◌∙◌, String, Bool, false, Option, none, some, List, [], ◌∷◌,
  ◌++◌, map, length, take-all, All, arith, append-nil,
}
use exoclaw_go.Prelude.Effects.{ok}
use exoclaw_go.Json.{Fields}
use exoclaw_go.Session.Repair.{repair_and_project}
use exoclaw_go.Session.Prepare.{prepare_turn}
use exoclaw_go.Session.Store.{
  Session, SessionManager, session_path, header, new_session, or_new, or_load, load_lines,
  load_session, get_or_create, stream, load_range, range_loop, lines_of,
}
use exoclaw_go.Session.Log.{
  IsEntry, IsHeader, Represents, append_log, entries, save_append-Represents, load_range-Represents,
}
use exoclaw_go.Conversation.Default.{
  PromptOptions, Layers, Conversation, is_isolated, noop_transform, save_any, append_message,
  repaired, prompt_history,
}

module _ (encode : Fields → String) (decode : String → Option Fields)
    (reread : Fields → Fields) where
  pub or_load-files :
      (now key : String) (mgr : SessionManager) (o : Option Session)
      → (or_load encode decode now key mgr o).1.files ≡ mgr.files
  or_load-files now key mgr none = refl
  or_load-files now key mgr (some s) = refl

  load_lines-key :
      (now key : String) (streaming : Bool) (lines : Option (List String))
      → (or_new encode decode now key (load_lines encode decode now key streaming lines)).key ≡ key
  unfolding load_lines new_session
  load_lines-key now key streaming none = refl
  load_lines-key now key streaming (some ls) = refl

  or_load-key :
      (now key : String) (mgr : SessionManager) (o : Option Session)
      → ((s : Session) → o ≡ some s → s.key ≡ key)
      → (or_load encode decode now key mgr o).0.key ≡ key
  unfolding load_session
  or_load-key now key mgr none h =
      load_lines-key now key mgr.streaming_history (mgr.files (session_path key))
  or_load-key now key mgr (some s) h = h s refl

  pub Represents-files :
      (o : Option (List Fields)) (key other : String) (mgr mgr' : SessionManager)
      → mgr'.files ≡ mgr.files
      → other ≡ key
      → Represents encode decode reread o key mgr
      → Represents encode decode reread o other mgr'
  Represents-files none key other mgr mgr' f k r =
      ap (λ g. g (session_path other)) f ∙ ap (λ x. mgr.files (session_path x)) k ∙ r
  Represents-files (some log) key other mgr mgr' f k (h, i, file, a) =
      (h, i, ap (λ g. g (session_path other)) f ∙ ap (λ x. mgr.files (session_path x)) k ∙ file, a)

  pub whole_range :
      (log : List Fields) (key : String) (mgr : SessionManager) (stop : ℕ)
      → length log ≤ stop
      → Represents encode decode reread (some log) key mgr
      → load_range encode decode key 0 stop mgr ≡ map reread log
  whole_range log key mgr stop h r =
      load_range-Represents encode decode reread log key mgr 0 stop r
      ∙ ap (map reread) (take-all (stop - 0) log (omega (arith, h)))

  range-entries :
      (o : Option (List Fields)) (key : String) (mgr : SessionManager) (stop : ℕ)
      → length (entries encode decode reread o) ≤ stop
      → Represents encode decode reread o key mgr
      → load_range encode decode key 0 stop mgr ≡ map reread (entries encode decode reread o)
  unfolding load_range range_loop
  range-entries none key mgr stop h r = ap (λ f. range_loop encode decode 0 stop 0 (lines_of f)) r
  range-entries (some log) key mgr stop h r = whole_range log key mgr stop h r

  append_log-entries :
      (o : Option (List Fields)) (ms : List Fields)
      → append_log encode decode reread ms o ≡ entries encode decode reread o ++ ms
  append_log-entries none ms = refl
  append_log-entries (some log) ms = refl

  range-save_any :
      (o : Option (List Fields)) (s : Session) (ms : List Fields) (mgr : SessionManager) (stop : ℕ)
      → Represents encode decode reread o s.key mgr
      → IsHeader encode decode reread (header s)
      → All (IsEntry encode decode reread) ms
      → length (entries encode decode reread o ++ ms) ≤ stop
      → load_range encode decode s.key 0 stop (save_any encode decode s ms mgr)
        ≡ map reread (entries encode decode reread o ++ ms)
  range-save_any o s [] mgr stop r i a h =
      let none_added = append-nil (entries encode decode reread o) in
      range-entries o s.key mgr stop (omega (arith, h, ap length none_added)) r
      ∙ ap (map reread) (sym none_added)
  range-save_any o s (m ∷ ms) mgr stop r i a h =
      let same = append_log-entries o (m ∷ ms) in
      whole_range (append_log encode decode reread (m ∷ ms) o) s.key _ stop
        (omega (arith, h, ap length same))
        (save_append-Represents encode decode reread o s (m ∷ ms) mgr r i a)
      ∙ ap (map reread) same

  -- The session that an operation on a key works with.
  abbrev pub opened : String → String → SessionManager → Session
  opened now key mgr = (get_or_create encode decode now key mgr).0

  opened-Represents :
      (now key : String) (mgr : SessionManager) (o : Option (List Fields))
      → ((s : Session) → mgr.cache key ≡ some s → s.key ≡ key)
      → Represents encode decode reread o key mgr
      → Represents encode decode reread o
          (opened now key mgr).key
          (get_or_create encode decode now key mgr).1
  unfolding get_or_create
  opened-Represents now key mgr o keyed r =
      Represents-files o key (opened now key mgr).key mgr _
        (or_load-files now key mgr (mgr.cache key)) (or_load-key now key mgr (mgr.cache key) keyed)
        r

  pub opened-key :
      (now key : String) (mgr : SessionManager)
      → ((s : Session) → mgr.cache key ≡ some s → s.key ≡ key)
      → (opened now key mgr).key ≡ key
  unfolding get_or_create
  opened-key now key mgr keyed = or_load-key now key mgr (mgr.cache key) keyed

  module _ {W : Type 0} (l : Layers W) where
    -- With the policy of a conversation that is given none, the history of a prompt that is not isolated
    -- is the log of the session as JSON reads it back, with the message that Append was given last,
    -- prepared, at its end, repaired and projected; up to 1073741824 messages.
    pub prompt_history-append_message :
        (c : Conversation W) (o : Option (List Fields)) (now key : String) (m : Fields)
        (opts : PromptOptions)
        → l.transform ≡ noop_transform encode decode
        → ((s : Session) → c.mgr.cache key ≡ some s → s.key ≡ key)
        → Represents encode decode reread o key c.mgr
        → IsHeader encode decode reread (header (opened now key c.mgr))
        → All (IsEntry encode decode reread) (prepare_turn now (m ∷ []))
        → is_isolated opts.extra ≡ false
        → length (entries encode decode reread o ++ prepare_turn now (m ∷ [])) ≤ 1073741824
        → prompt_history encode decode l opts key (append_message encode decode l now key m c)
          ≡ ok (
              repair_and_project
                (map reread (entries encode decode reread o ++ prepare_turn now (m ∷ []))))
    unfolding prompt_history append_message noop_transform stream
    prompt_history-append_message c o now key m opts noop keyed r i a whole bound =
        let s = opened now key c.mgr in
        let mgr = (get_or_create encode decode now key c.mgr).1 in
        let after = save_any encode decode s (prepare_turn now (m ∷ [])) mgr in
        let found =
          ap (λ k. load_range encode decode k 0 1073741824 after)
            (sym (opened-key now key c.mgr keyed))
          ∙ range-save_any o s (prepare_turn now (m ∷ [])) mgr 1073741824
              (opened-Represents now key c.mgr o keyed r) i a bound in
        rw whole (
          ap (λ f. repaired encode decode l (f after key c.world)) noop
          ∙ ap (λ ms. ok (repair_and_project ms)) found)
