-- ===== src/Transfer/Channel/Kept.antt =====
-- internal/host/daemon.go: what a message leaves of a transfer that is completed or cancelled.
use mathlib.Core.Path.{subst}
use remotty.Base.{
  ℕ, ◌≡◌, inl, inr, String, false, none, some, string_key, ◌∙◌, sym, Bool-cases, if_true, if_false,
}
use remotty.Transfer.{complete, cancel}
use remotty.Transfer.Channel.{
  FileEnv, FileMessage, file_request, file_chunk, file_complete, file_cancel, file_error,
  other_message, FileLabel, Channel, on_message, handled,
}
use remotty.Transfer.Channel.Closed.{
  IsClosed, IsClosedIn, cancel-Closes, carry, close_transfer-IsClosed, complete-Closes,
  insert_other, on_chunk-IsClosed, on_request-outcome, requests,
}

-- No message but a request with its ID changes a transfer that is closed.
handled-IsClosed :
    (label : FileLabel) (id : String) (chunks sent : ℕ) (env : FileEnv) (ch next : Channel)
    (msg : FileMessage)
    → requests id msg ≡ false
    → IsClosed id chunks sent ch.manager.transfers
    → handled label env ch msg ≡ some next
    → IsClosed id chunks sent next.manager.transfers
handled-IsClosed label id chunks sent env ch next (file_request (some req)) other w e =
    elim (on_request-outcome env ch next req e) [
      | inl same ↦ subst (IsClosed id chunks sent) (sym same) w
      | inr (t, begun) ↦
          subst (IsClosed id chunks sent) (sym begun)
            (insert_other id req.transfer_id chunks sent t ch.manager.transfers w other)
    ]
handled-IsClosed label id chunks sent env ch next (file_chunk (some chunk)) other w e =
    carry (IsClosedIn id chunks sent) _ next e
      (on_chunk-IsClosed label id chunks sent env ch chunk w)
handled-IsClosed label id chunks sent env ch next (file_complete (some key)) other w e =
    carry (IsClosedIn id chunks sent) _ next e
      (close_transfer-IsClosed id key chunks sent complete ch complete-Closes w)
handled-IsClosed label id chunks sent env ch next (file_cancel (some key)) other w e =
    carry (IsClosedIn id chunks sent) _ next e
      (close_transfer-IsClosed id key chunks sent cancel ch cancel-Closes w)
handled-IsClosed label id chunks sent env ch next (file_error (some key)) other w e =
    carry (IsClosedIn id chunks sent) _ next e
      (close_transfer-IsClosed id key chunks sent cancel ch cancel-Closes w)
handled-IsClosed label id chunks sent env ch next (file_request none) other w e =
    carry (IsClosedIn id chunks sent) ch next e w
handled-IsClosed label id chunks sent env ch next (file_chunk none) other w e =
    carry (IsClosedIn id chunks sent) ch next e w
handled-IsClosed label id chunks sent env ch next (file_complete none) other w e =
    carry (IsClosedIn id chunks sent) ch next e w
handled-IsClosed label id chunks sent env ch next (file_cancel none) other w e =
    carry (IsClosedIn id chunks sent) ch next e w
handled-IsClosed label id chunks sent env ch next (file_error none) other w e =
    carry (IsClosedIn id chunks sent) ch next e w
handled-IsClosed label id chunks sent env ch next other_message other w e =
    carry (IsClosedIn id chunks sent) ch next e w

pub on_message-IsClosed :
    (label : FileLabel) (id : String) (chunks sent : ℕ) (env : FileEnv) (ch next : Channel)
    (msg : FileMessage)
    → requests id msg ≡ false
    → IsClosed id chunks sent ch.manager.transfers
    → on_message label env ch msg ≡ some next
    → IsClosed id chunks sent next.manager.transfers
unfolding on_message
on_message-IsClosed label id chunks sent env ch next msg other w e =
    elim (Bool-cases ch.listening) [
      | inl listens ↦
          handled-IsClosed label id chunks sent env ch next msg other w
            (sym (if_true ch.listening _ _ listens) ∙ e)
      | inr deaf ↦
          carry (IsClosedIn id chunks sent) ch next (sym (if_false ch.listening _ _ deaf) ∙ e) w
    ]
