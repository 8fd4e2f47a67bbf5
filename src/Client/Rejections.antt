-- ===== src/Client/Rejections.antt =====
-- A text client of client/kerno/client.go against the replies of internal/server/handlers.go.
use a_kerno.Common.{◌≡◌, refl, Bytes, text, ◌++◌, false, Result, err}
use a_kerno.Client.{Call, Returned, TextError, send_command}
use a_kerno.Client.Opening.{Client, CallError, call}
use a_kerno.Cmdlist as Cmdlist
use a_kerno.Cmdlist.{HeaderError}
use a_kerno.Cmdlist.Responses.{new_parser-format_error, new_parser-format_ok_with_body}
use a_kerno.Server.Replies.{Server, Reply}
use a_kerno.Server.Format.{Texts}
use a_kerno.Server.Format.Replies.{
  text_reply, list_daemons_reply, list_features_reply, logs_reply, list_programs_reply,
}

-- A reply of the text protocol, as one of the two formats that its handlers use.
data IsFormatted : Bytes → Type 0 where
  with_body : (attrs body : Bytes) → IsFormatted (Cmdlist.format_ok_with_body attrs body)
  with_error : (message : Bytes) → IsFormatted (Cmdlist.format_error message)

text_reply-IsFormatted :
    (texts : Texts) (cmd : Cmdlist.Command) (s : Server) (reply : Reply)
    → IsFormatted (text_reply texts cmd s reply)
unfolding text_reply list_daemons_reply list_features_reply logs_reply list_programs_reply
text_reply-IsFormatted texts cmd s (Reply.daemons ds) = with_body _ _
text_reply-IsFormatted texts cmd s (Reply.daemon_status d) = with_body _ _
text_reply-IsFormatted texts cmd s (Reply.daemon_restarted name pid) = with_body _ _
text_reply-IsFormatted texts cmd s (Reply.daemon_started name pid) = with_body _ _
text_reply-IsFormatted texts cmd s (Reply.daemon_stopped name) = with_body _ _
text_reply-IsFormatted texts cmd s (Reply.features fs) = with_body _ _
text_reply-IsFormatted texts cmd s (Reply.log_lines shown) = with_body _ _
text_reply-IsFormatted texts cmd s Reply.shutting_down = with_body _ _
text_reply-IsFormatted texts cmd s (Reply.programs ps) = with_body _ _
text_reply-IsFormatted texts cmd s (Reply.program_status p) = with_body _ _
text_reply-IsFormatted texts cmd s (Reply.program_started name pid) = with_body _ _
text_reply-IsFormatted texts cmd s (Reply.program_stopped name) = with_body _ _
text_reply-IsFormatted texts cmd s (Reply.failure f) = with_error _

abbrev pub IsRejected : Result CallError Returned → Type 0
IsRejected r = (h : HeaderError) × (r ≡ err (CallError.txt (TextError.create_parser h)))

formatted-IsRejected :
    {reply : Bytes} (c : Client) (m : Call) (rest : Bytes)
    → IsFormatted reply
    → c.use_binary ≡ false
    → IsRejected (call c m (reply ++ rest)).1
unfolding call send_command
formatted-IsRejected c m rest (with_body attrs body) is_text = (
  HeaderError.unsupported_format (text "20 "),
  rw (is_text, new_parser-format_ok_with_body attrs body rest, call) refl,
)
formatted-IsRejected c m rest (with_error message) is_text = (
  HeaderError.unsupported_format (text "50\n"),
  rw (is_text, new_parser-format_error message rest, call) refl,
)

-- Whatever the text protocol's dispatcher replies, to whatever command, each method of a text client returns an error: it
-- cannot make a parser for the reply.
pub call-text_reply :
    (texts : Texts) (cmd : Cmdlist.Command) (s : Server) (reply : Reply) (c : Client) (m : Call)
    (rest : Bytes)
    → c.use_binary ≡ false
    → IsRejected (call c m (text_reply texts cmd s reply ++ rest)).1
call-text_reply texts cmd s reply c m rest is_text =
    formatted-IsRejected c m rest (text_reply-IsFormatted texts cmd s reply) is_text
