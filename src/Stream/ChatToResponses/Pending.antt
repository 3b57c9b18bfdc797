-- ===== src/Stream/ChatToResponses/Pending.antt =====
-- The event that is not finished when a converted stream ends.
use prelay_server.Base.{◌≡◌, Option, List, [], arith}
use prelay_server.Text.{Text}
use prelay_server.Stream.Events.{ChatSseEvent}
use prelay_server.Stream.ChatToResponses.{
  Core, finish_line, finish, finish_response, record_response_id,
}

module _ (decode : Text → Option ChatSseEvent) where
  -- If the bytes end after a newline, what the end of the stream sends does not depend on the data
  -- lines that were read and not yet flushed: an event whose blank line did not come is lost.
  pub finish-data_lines :
      (core : Core) (lines : List Text)
      → (finish decode ([], record core { data_lines = lines })).1 ≡ (finish decode ([], core)).1
  unfolding finish finish_line finish_response record_response_id
  finish-data_lines core lines = ground arith
