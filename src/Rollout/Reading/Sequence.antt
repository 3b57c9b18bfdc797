-- ===== src/Rollout/Reading/Sequence.antt =====
-- That a conversation's last number is the greatest of its events', src/store/rollout/read.rs.
use Prim.Native.Nat.{max}
use mathlib.Core.Path.{subst}
use native.Mathlib.Nat.{le-max_left, le-max_right}
use prelay_server.Base.{ℕ, ◌≤◌, ◌≡◌, Option, none, some, List, [], ◌∷◌, arith, All}
use prelay_server.Result.{ok, after, ok_inj}
use prelay_server.Text.{Bytes}
use prelay_server.Rollout.Reading.{
  Decoding, ConversationEvent, ParsedConversation, text_lines, parse_event_line, parse_lines,
  Events, with_line, parse_conversation_contents, read_header,
}

abbrev pub NumberedUpTo : {V : Type 0} → ℕ → List (ConversationEvent V) → Type 0
NumberedUpTo n = All (λ event. event.seq ≤ n)

abbrev pub Events-NumberedUpTo : {V : Type 0} → ℕ → List (ConversationEvent V) × ℕ → Type 0
Events-NumberedUpTo last (events, n) = (last ≤ n) × NumberedUpTo n events

module _ {V B : Type 0} (decoding : Decoding V B) (sha256 : Bytes → Bytes) where
  with_line-NumberedUpTo :
      (parsed : Option (ConversationEvent V)) (last : ℕ) (rest : ℕ → Events decoding sha256)
      → ((last : ℕ) (out : List (ConversationEvent V) × ℕ)
          → rest last ≡ ok out
          → Events-NumberedUpTo last out)
      → (out : List (ConversationEvent V) × ℕ) → with_line decoding sha256 parsed last rest ≡ ok out
      → Events-NumberedUpTo last out
  with_line-NumberedUpTo none last rest ih out h = ih last out h
  with_line-NumberedUpTo (some event) last rest ih out h =
      after (rest (max last event.seq)) _ h λ (events, n) e h.
        let (le, numbered) = ih (max last event.seq) (events, n) e in
        subst (Events-NumberedUpTo last) (ok_inj h) (
          omega (arith, le, le-max_left last event.seq),
          (omega (arith, le, le-max_right last event.seq), numbered),
        )

  parse_lines-NumberedUpTo :
      (lines : List Bytes) (last : ℕ) (out : List (ConversationEvent V) × ℕ)
      → parse_lines decoding sha256 lines last ≡ ok out
      → Events-NumberedUpTo last out
  unfolding parse_lines
  parse_lines-NumberedUpTo [] last out h =
      subst (Events-NumberedUpTo last) (ok_inj h) (omega arith, tt)
  parse_lines-NumberedUpTo (line ∷ lines) last out h =
      after (parse_event_line decoding sha256 line) _ h λ parsed e h.
        with_line-NumberedUpTo parsed last (parse_lines decoding sha256 lines)
          (parse_lines-NumberedUpTo lines) out h

  pub parse_conversation_contents-NumberedUpTo :
      (contents : Bytes) (parsed : ParsedConversation V)
      → parse_conversation_contents decoding sha256 contents ≡ ok parsed
      → NumberedUpTo parsed.last_seq parsed.events
  unfolding parse_conversation_contents
  parse_conversation_contents-NumberedUpTo contents parsed h =
      after (read_header decoding sha256 (text_lines contents)) _ h λ (format, meta, rest) e h.
        after (parse_lines decoding sha256 rest 0) _ h λ (events, n) e h.
          subst (λ (parsed : ParsedConversation V). NumberedUpTo parsed.last_seq parsed.events)
            (ok_inj h) (parse_lines-NumberedUpTo rest 0 (events, n) e).1
