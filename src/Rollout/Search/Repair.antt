-- ===== src/Rollout/Search/Repair.antt =====
-- That a file whose last line is incomplete is repaired when it is read, src/store/rollout/read.rs.
use prelay_server.Base.{
  ℕ, ◌≡◌, refl, ap, ◌∙◌, ◌≢◌, String, none, some, List, [], ◌∷◌, ◌++◌, true, false, take, length,
  All, arith,
}
use prelay_server.Result.{ok}
use prelay_server.Text.{Bytes}
use prelay_server.Rollout.{Encoding}
use prelay_server.Rollout.Reading.{
  Decoding, ParsedConversation, ends_with_newline, completed_contents, parse_conversation_contents,
}
use prelay_server.Rollout.Search.{Disk, contents, valid_length, repair, read_thread_events}

-- Bytes with no newline.
abbrev pub NoNewline : Bytes → Type 0
NoNewline = All (λ b. b ≢ b'\n')

NoNewline-valid_length : (bytes : Bytes) → NoNewline bytes → valid_length bytes ≡ 0
unfolding valid_length
NoNewline-valid_length [] h = refl
NoNewline-valid_length (b ∷ bs) h = ground (arith, NoNewline-valid_length bs h.1, h.0)

valid_length-append :
    (whole partial : Bytes)
    → ends_with_newline whole ≡ true
    → NoNewline partial
    → valid_length (whole ++ partial) ≡ length whole
unfolding valid_length ends_with_newline
valid_length-append [] partial e h = absurd (ground arith)
valid_length-append (b ∷ []) partial e h = ground (arith, NoNewline-valid_length partial h)
valid_length-append (b ∷ c ∷ bs) partial e h =
    rw (valid_length-append (c ∷ bs) partial e h) (ground arith)

ends_with_newline-append :
    (whole : Bytes) (b : ℕ) (bs : Bytes)
    → NoNewline (b ∷ bs)
    → ends_with_newline (whole ++ b ∷ bs) ≡ false
unfolding ends_with_newline
ends_with_newline-append [] b [] h = ground (arith, h.0)
ends_with_newline-append [] b (c ∷ bs) h = ends_with_newline-append [] c bs h.1
ends_with_newline-append (d ∷ []) b bs h = ends_with_newline-append [] b bs h
ends_with_newline-append (d ∷ e ∷ whole) b bs h = ends_with_newline-append (e ∷ whole) b bs h

take-append {ℓ} : {A : Type ℓ} (xs ys : List A) → take (length xs) (xs ++ ys) ≡ xs
take-append [] ys = refl
take-append (x ∷ xs) ys = ap (λ rest. x ∷ rest) (take-append xs ys)

completed-append :
    (whole : Bytes) (b : ℕ) (bs : Bytes)
    → NoNewline (b ∷ bs)
    → completed_contents (whole ++ b ∷ bs) ≡ false
unfolding completed_contents
completed-append [] b bs h = rw (ends_with_newline-append [] b bs h)
completed-append (d ∷ whole) b bs h = rw (ends_with_newline-append (d ∷ whole) b bs h)

completed-valid_length :
    (whole partial : Bytes)
    → completed_contents whole ≡ true
    → NoNewline partial
    → valid_length (whole ++ partial) ≡ length whole
unfolding completed_contents
completed-valid_length [] partial e h = NoNewline-valid_length partial h
completed-valid_length (b ∷ bs) partial e h = valid_length-append (b ∷ bs) partial (ground arith) h

-- A file that was cut at a length has its first bytes.
pub record IsLawful (disk : Disk) : Type 1 where
  pub truncated :
      (path : String) (n : ℕ) (bytes : Bytes) (d d' : disk.D)
      → disk.read_to_string d path ≡ contents bytes
      → disk.truncate path n d ≡ (none, d')
      → disk.read_to_string d' path ≡ contents (take n bytes)

module _ (encoding : Encoding) where
  open encoding use {V, B, sha256}

  module _ (decoding : Decoding V B) (disk : Disk) where
    open disk use {D, read_to_string, truncate}

    whole_read :
        (path : String) (whole : Bytes) (d : D) (parsed : ParsedConversation V)
        → read_to_string d path ≡ contents whole
        → completed_contents whole ≡ true
        → parse_conversation_contents decoding sha256 whole ≡ ok parsed
        → read_thread_events encoding decoding disk path d ≡ (ok (some parsed), d)
    unfolding read_thread_events
    whole_read path whole d parsed r c p = rw (r, read_thread_events) (rw c (rw p refl))

    repair_lem :
        (path : String) (whole partial : Bytes) (d d' : D) (parsed : ParsedConversation V)
        → valid_length (whole ++ partial) ≡ length whole
        → parse_conversation_contents decoding sha256 whole ≡ ok parsed
        → truncate path (length whole) d ≡ (none, d')
        → repair encoding decoding disk path (whole ++ partial) d ≡ (ok (some parsed), d')
    unfolding repair
    repair_lem path whole partial d d' parsed v p t =
        rw (v, repair) (rw (take-append whole partial) (rw p (rw v (rw t refl))))

    -- On a disk where cutting a file leaves its first bytes: if a file is whole lines and, behind
    -- them, a beginning of a line without its newline, and the whole lines can be parsed, then
    -- reading it cuts that beginning off and gives the events of the whole lines, and reading it
    -- again gives the same and leaves the disk as it is.
    pub read_thread_events-repairs :
        (path : String) (whole partial : Bytes) (d d' : D) (parsed : ParsedConversation V)
        → IsLawful disk
        → read_to_string d path ≡ contents (whole ++ partial)
        → completed_contents whole ≡ true
        → NoNewline partial
        → partial ≢ []
        → parse_conversation_contents decoding sha256 whole ≡ ok parsed
        → truncate path (length whole) d ≡ (none, d')
        → (read_thread_events encoding decoding disk path d ≡ (ok (some parsed), d'))
          × (read_thread_events encoding decoding disk path d' ≡ (ok (some parsed), d'))
    unfolding read_thread_events
    read_thread_events-repairs path whole [] d d' parsed lawful r c n ne p t = absurd (ne refl)
    read_thread_events-repairs path whole (b ∷ bs) d d' parsed lawful r c n ne p t =
        let cut = lawful.truncated path (length whole) (whole ++ b ∷ bs) d d' r t in
        (
          rw (r, read_thread_events)
              (rw (completed-append whole b bs n) (
                repair_lem path whole (b ∷ bs) d d' parsed
                  (completed-valid_length whole (b ∷ bs) c n) p t)),
          whole_read path whole d' parsed (cut ∙ ap contents (take-append whole (b ∷ bs))) c p,
        )
