-- ===== src/Rollout/Search/Candidates.antt =====
-- That each file that is read has its events numbered, src/store/rollout/read.rs.
use prelay_server.Base.{◌≡◌, refl, String, Option, none, some, true, false, if◌then◌else◌, take}
use prelay_server.Result.{Result, ok, err, ◌>>=◌}
use prelay_server.Text.{Bytes}
use prelay_server.Rollout.{RolloutError, io, serialize, invalid_path, partial_line, Encoding}
use prelay_server.Rollout.Reading.{
  Decoding, ParsedConversation, completed_contents, parse_conversation_contents,
}
use prelay_server.Rollout.Reading.Sequence.{NumberedUpTo, parse_conversation_contents-NumberedUpTo}
use prelay_server.Rollout.Search.{
  Disk, contents, not_found, failed, ThreadCandidate, missing, corrupt, events, valid_length,
  is_bad_path, repaired, repair, read_thread_events, candidate_of, read_thread_candidate,
}

abbrev pub IsNumbered : {V : Type 0} → ParsedConversation V → Type 0
IsNumbered parsed = NumberedUpTo parsed.last_seq parsed.events

abbrev ParsedNumbered : {V : Type 0} → Result RolloutError (ParsedConversation V) → Type 0
ParsedNumbered (ok parsed) = IsNumbered parsed
ParsedNumbered (err e) = Unit

abbrev ReadNumbered : {V : Type 0} → Result RolloutError (Option (ParsedConversation V)) → Type 0
ReadNumbered (ok (some parsed)) = IsNumbered parsed
ReadNumbered (ok none) = Unit
ReadNumbered (err e) = Unit

abbrev pub CandidateNumbered : {V : Type 0} → Result RolloutError (ThreadCandidate V) → Type 0
CandidateNumbered (ok (events parsed)) = IsNumbered parsed
CandidateNumbered (ok missing) = Unit
CandidateNumbered (ok corrupt) = Unit
CandidateNumbered (err e) = Unit

module _ (encoding : Encoding) where
  open encoding use {V, B, F, sha256}

  module _ (decoding : Decoding V B) (disk : Disk) where
    open disk use {D, read_to_string, truncate, metadata}

    parse-Numbered :
        (bytes : Bytes) (parsed : Result RolloutError (ParsedConversation V))
        → parse_conversation_contents decoding sha256 bytes ≡ parsed
        → ParsedNumbered parsed
    parse-Numbered bytes (ok parsed) h =
        parse_conversation_contents-NumberedUpTo decoding sha256 bytes parsed h
    parse-Numbered bytes (err e) h = tt

    repaired-Numbered :
        (parsed : ParsedConversation V) (cut : Option RolloutError × D)
        → IsNumbered parsed
        → ReadNumbered (repaired encoding decoding disk parsed cut).0
    repaired-Numbered parsed (some e, d) h = tt
    repaired-Numbered parsed (none, d) h = h

    repair-Numbered :
        (path : String) (bytes : Bytes) (d : D)
        → ReadNumbered (repair encoding decoding disk path bytes d).0
    unfolding repair
    repair-Numbered path bytes d =
        let valid = valid_length bytes in
        elim (parse_conversation_contents decoding sha256 (take valid bytes))
            as (λ parsed.
              ParsedNumbered parsed
              → (let o : Result RolloutError (Option (ParsedConversation V)) × D = elim parsed [
                | err e ↦ (err e, d)
                | ok parsed ↦ repaired encoding decoding disk parsed (truncate path valid d)
              ] in
                  ReadNumbered o.0)) [
                    | err e ↦ λ h. tt
                    | ok parsed ↦ λ h. repaired-Numbered parsed (truncate path valid d) h
                  ]
          (parse-Numbered (take valid bytes) _ refl)

    whole-Numbered :
        (parsed : Result RolloutError (ParsedConversation V))
        → ParsedNumbered parsed
        → ReadNumbered (parsed >>= λ parsed. ok (some parsed))
    whole-Numbered (ok parsed) h = h
    whole-Numbered (err e) h = tt

    read_thread_events-Numbered :
        (path : String) (d : D) → ReadNumbered (read_thread_events encoding decoding disk path d).0
    unfolding read_thread_events
    read_thread_events-Numbered path d =
        elim (read_to_string d path)
          as (λ read.
            let o : Result RolloutError (Option (ParsedConversation V)) × D = elim read [
              | not_found ↦ (ok none, d)
              | failed e ↦ (err e, d)
              | contents bytes ↦
                  if completed_contents bytes
                  then (
                    parse_conversation_contents decoding sha256 bytes >>= λ parsed.
                        ok (some parsed),
                    d,
                  )
                  else repair encoding decoding disk path bytes d
            ] in
            ReadNumbered o.0) [
              | not_found ↦ tt
              | failed e ↦ tt
              | contents bytes ↦
                  elim (completed_contents bytes)
                    as (λ whole.
                      ReadNumbered
                        (if whole
                          then (
                            parse_conversation_contents decoding sha256 bytes >>= λ parsed.
                                ok (some parsed),
                            d,
                          )
                          else repair encoding decoding disk path bytes d).0) [
                            | true ↦ whole-Numbered _ (parse-Numbered bytes _ refl)
                            | false ↦ repair-Numbered path bytes d
                          ]
            ]

    candidate_of-Numbered :
        (path : String) (read : Result RolloutError (Option (ParsedConversation V))) (d : D)
        → ReadNumbered read
        → CandidateNumbered (candidate_of encoding decoding disk path (read, d)).0
    candidate_of-Numbered path (ok none) d h = tt
    candidate_of-Numbered path (ok (some parsed)) d h =
        elim (metadata d path)
          as (λ failure.
            let o : Result RolloutError (ThreadCandidate V) × D = elim failure [
              | some e ↦ (err e, d)
              | none ↦ (ok (events parsed), d)
            ] in
            CandidateNumbered o.0) [ some e ↦ tt | none ↦ h ]
    candidate_of-Numbered path (err (serialize message)) d h = tt
    candidate_of-Numbered path (err (io message)) d h = tt
    candidate_of-Numbered path (err (invalid_path message)) d h = tt
    candidate_of-Numbered path (err (partial_line message n)) d h = tt

    pub read_thread_candidate-Numbered :
        (path : String) (d : D)
        → CandidateNumbered (read_thread_candidate encoding decoding disk path d).0
    unfolding read_thread_candidate
    read_thread_candidate-Numbered path d =
        let (read, d') = read_thread_events encoding decoding disk path d in
        elim (is_bad_path path)
          as (λ bad.
            let o : Result RolloutError (ThreadCandidate V) × D =
              (if bad
                then (err (invalid_path path), d)
                else candidate_of encoding decoding disk path
                    (read_thread_events encoding decoding disk path d)) in
            CandidateNumbered o.0) [
              | true ↦ tt
              | false ↦ candidate_of-Numbered path read d' (read_thread_events-Numbered path d)
            ]
