-- ===== src/Dispatch/Retry.antt =====
-- When a message that was not acknowledged is sent again, and when it never is.
use neta_agent.Prelude.{
  ℕ, ◌+◌, ◌*◌, ◌%◌, ◌^◌, min, Bool, true, false, ◌&&◌, ◌||◌, not, Text, bytes, ◌==◌, nat_eq,
  if◌then◌else◌,
}
use neta_agent.Prelude.Search.{contains}
use neta_agent.Outbound.Message.{OutboundMessage}

abbrev pub nanoseconds_per_second : ℕ
nanoseconds_per_second = 1000000000

abbrev pub attempt_lifetime_ns : ℕ
attempt_lifetime_ns = 300 * nanoseconds_per_second

abbrev pub attempt_refresh_margin_ns : ℕ
attempt_refresh_margin_ns = 5 * nanoseconds_per_second

unfoldable pub retry_delay_ns : OutboundMessage → ℕ
retry_delay_ns message =
    let exponent = min message.attempt_count 6 in
    let seconds = min 300 (5 * 2 ^ exponent) in
    let jitter = message.event_counter % 5 in (seconds + jitter) * nanoseconds_per_second

-- What sending gave: an answer, an HTTP error with its status and body, or another exception.
pub data Response : Type 0 where
  answered : Text → Response
  refused : ℕ → Text → Response
  unreachable : Response

unfoldable pub is_permanent_rejection : Response → Bool
unfolding contains
is_permanent_rejection (answered text) = false
is_permanent_rejection (refused status body) =
    if status == 413 || status == 422
    then true
    else if status == 409
    then contains body (bytes "different content")
    else if not (status == 400)
    then false
    else not (contains body (bytes "expired"))
      && not (contains body (bytes "clock"))
      && not (contains body (bytes "created_at is too far"))
is_permanent_rejection unreachable = false
