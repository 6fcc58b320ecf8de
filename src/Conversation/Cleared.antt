-- ===== src/Conversation/Cleared.antt =====
-- Clear of conversation-file/conversation.go: what remains, and its error.
use std.Path.{subst}
use exoclaw_go.Prelude.{
  ℕ, ◌≡◌, refl, sym, ap, ◌∙◌, String, Bool, true, false, ◌&&◌, Option, none, some, List, [], ◌∷◌,
  map, str_eq, eq_refl, if◌then◌else◌, arith,
}
use exoclaw_go.Prelude.Effects.{Error, Result, ok, err}
use exoclaw_go.Json.{Fields}
use exoclaw_go.Session.Store.{
  Session, SessionManager, session_path, header, total_messages, clear_session, new_session, or_new,
  or_load, load_lines, load_session, get_or_create, stream, load_range, range_loop, count,
  invalidate, save, lines_of, WriteFailure, leave_file, try_save, save_lines, set_at,
}
use exoclaw_go.Session.Log.{IsHeader, Represents, files-write_file, count-Represents}
use exoclaw_go.Conversation.Default.{Layers, Conversation, clear_log, after_save, clear_cached}
use exoclaw_go.Conversation.History.{
  opened, or_load-files, Represents-files, whole_range, opened-key,
}

module _ (encode : Fields → String) (decode : String → Option Fields)
    (reread : Fields → Fields) where
  none_left : (b : Bool) (ms : List Fields) → map encode (if b && false then ms else []) ≡ []
  none_left true ms = refl
  none_left false ms = refl

  save_lines-cleared :
      (now : String) (s : Session) (mgr : SessionManager)
      → save_lines encode decode (clear_session now s) mgr
        ≡ encode (header (clear_session now s)) ∷ []
  unfolding clear_session total_messages
  save_lines-cleared now s mgr =
      ap (λ ms. encode (header (clear_session now s)) ∷ ms) (none_left mgr.streaming_history _)

  save-cleared :
      (now : String) (s : Session) (mgr : SessionManager)
      → IsHeader encode decode reread (header (clear_session now s))
      → Represents encode decode reread
          (some [])
          s.key
          (save encode decode (clear_session now s) mgr)
  unfolding save clear_session total_messages
  save-cleared now s mgr i = (
    header (clear_session now s),
    i,
    files-write_file encode decode reread (session_path s.key) _ mgr
        ∙ ap (λ ms. some (encode (header (clear_session now s)) ∷ ms))
            (none_left mgr.streaming_history _),
    tt,
  )

  save-other :
      (now other : String) (s : Session) (mgr : SessionManager)
      → str_eq (session_path other) (session_path s.key) ≡ false
      → (save encode decode (clear_session now s) mgr).files (session_path other)
        ≡ mgr.files (session_path other)
  unfolding save clear_session
  save-other now other s mgr ne = rw ne refl

  module _ {W : Type 0} (l : Layers W) where
    -- The session `key` has no messages, neither in its file nor for Count.
    abbrev pub IsEmptied : String → SessionManager → Type 0
    IsEmptied key mgr =
        ((stop : ℕ) → load_range encode decode key 0 stop mgr ≡ [])
        × (count encode decode key mgr ≡ 0)

    -- Another session has in its file what it had.
    abbrev pub SameRange : String → SessionManager → SessionManager → Type 0
    SameRange other mgr mgr' =
        (stop : ℕ)
        → load_range encode decode other 0 stop mgr' ≡ load_range encode decode other 0 stop mgr

    abbrev pub Clears :
        String
        → String
        → Conversation W
        → Option (Error × Option (List String))
        → Result Bool × Conversation W
        → Type 0
    Clears key other c none (r, c') =
        (r ≡ ok true)
        × IsEmptied key c'.mgr
        × SameRange other c.mgr c'.mgr
        × (c'.world ≡ l.delete_state key c.world)
    Clears key other c (some (e, left)) (r, c') =
        (r ≡ err e)
        × (c'.mgr.files (session_path key) ≡ left)
        × (count encode decode key c'.mgr ≡ 0)
        × SameRange other c.mgr c'.mgr
        × (c'.world ≡ c.world)

    range-files :
        (other : String) (mgr mgr' : SessionManager)
        → mgr'.files (session_path other) ≡ mgr.files (session_path other)
        → SameRange other mgr mgr'
    unfolding load_range
    range-files other mgr mgr' h stop = ap (λ f. range_loop encode decode 0 stop 0 (lines_of f)) h

    Clears-saved :
        (c : Conversation W) (now key other : String) (s : Session) (mgr : SessionManager)
        → s.key ≡ key
        → IsHeader encode decode reread (header (clear_session now s))
        → str_eq (session_path other) (session_path key) ≡ false
        → mgr.files ≡ c.mgr.files
        → Clears key other c none
            (after_save encode decode l key c (ok tt, save encode decode (clear_session now s) mgr))
    unfolding invalidate
    Clears-saved c now key other s mgr k i ne f =
        let cleared = save encode decode (clear_session now s) mgr in
        let emptied = invalidate encode decode key cleared in
        let left =
          Represents-files encode decode reread (some []) s.key key cleared emptied refl (sym k)
            (save-cleared now s mgr i) in
        let same : emptied.files (session_path other) ≡ c.mgr.files (session_path other) =
          save-other now other s mgr (ap (λ x. str_eq (session_path other) (session_path x)) k ∙ ne)
          ∙ ap (λ g. g (session_path other)) f in
        (
          refl,
          (
            (λ stop. whole_range encode decode reread [] key emptied stop (omega arith) left),
            count-Represents encode decode reread [] key emptied left (rw (eq_refl key) refl),
          ),
          range-files other c.mgr emptied same,
          refl,
        )

    Clears-tried :
        (c : Conversation W) (now key other : String) (s : Session) (mgr : SessionManager)
        (o : Option (Error × Option (List String)))
        → s.key ≡ key
        → IsHeader encode decode reread (header (clear_session now s))
        → str_eq (session_path other) (session_path key) ≡ false
        → mgr.files ≡ c.mgr.files
        → let m = clear_cached encode decode l now key s mgr in
          Clears key other c o (
            after_save encode decode l key c (
              leave_file encode decode
                (session_path s.key)
                o
                (save encode decode (clear_session now s) m)
                m))
    unfolding count clear_session total_messages exoclaw_go.Session.Store.count_of
    Clears-tried c now key other s mgr none k i ne f =
        Clears-saved c now key other s (clear_cached encode decode l now key s mgr) k i ne f
    Clears-tried c now key other s mgr (some (e, left)) k i ne f =
        let m = clear_cached encode decode l now key s mgr in
        let broken = (leave_file encode decode (session_path s.key) (some (e, left)) m m).1 in
        let at = ap (λ x. str_eq (session_path other) (session_path x)) k ∙ ne in
        (
          refl,
          rw (ap session_path (sym k), eq_refl (session_path s.key)) refl,
          rw (eq_refl key) refl,
          range-files other c.mgr broken (rw at (ap (λ g. g (session_path other)) f)),
          refl,
        )

    -- Where the file could be written, Clear answers true, the session has no messages, neither in its
    -- file nor for Count, whatever it had before, and DeleteState was called. Where it could not, Clear
    -- returns that error, the file holds what the failed write left, Count is 0 nevertheless, and
    -- DeleteState was not called. In both cases a session with another file has in it what it had.
    pub clear_log-empties :
        (c : Conversation W) (cannot_write : WriteFailure) (now key other : String)
        → ((s : Session) → c.mgr.cache key ≡ some s → s.key ≡ key)
        → IsHeader encode decode reread
            (header (clear_session now (opened encode decode reread now key c.mgr)))
        → str_eq (session_path other) (session_path key) ≡ false
        → let path = session_path key in
          let s = clear_session now (opened encode decode reread now key c.mgr) in
          Clears key other c
            (cannot_write path (c.mgr.files path) (encode (header s) ∷ []))
            (clear_log encode decode l cannot_write now key c)
    unfolding clear_log try_save get_or_create clear_session
    clear_log-empties c cannot_write now key other keyed i ne =
        let s = opened encode decode reread now key c.mgr in
        let mgr = (get_or_create encode decode now key c.mgr).1 in
        let files = or_load-files encode decode reread now key c.mgr (c.mgr.cache key) in
        let k = opened-key encode decode reread now key c.mgr keyed in
        let path = session_path key in
        let m = clear_cached encode decode l now key s mgr in
        let lines = save_lines encode decode (clear_session now s) m in
        let fails =
          ap (λ x. cannot_write (session_path x) (mgr.files (session_path x)) lines) k
          ∙ ap (λ g. cannot_write path (g path) lines) files
          ∙ ap (cannot_write path (c.mgr.files path)) (save_lines-cleared now s m) in
        subst (λ o. Clears key other c o (clear_log encode decode l cannot_write now key c)) fails
          (Clears-tried c now key other s mgr _ k i ne files)
