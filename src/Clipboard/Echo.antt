-- ===== src/Clipboard/Echo.antt =====
-- internal/host/clipboard.go: whether a client gets its own text back.
use remotty.Base.{
  ◌≡◌, ◌≢◌, ◌⊎◌, String, Bool, true, false, List, [], ◌∷◌, ◌==◌, string_key, any, All, arith,
  if◌then◌else◌, ==_iff,
}
use remotty.Base.Text.{trim_newlines}
use remotty.Clipboard.{Monitor, set, compare_content, check_clipboard}

-- What happens to the clipboard: the user copies a text, a client sets one, and the monitor looks.
pub data Event : Type 0 where
  copies : String → Event
  sets : String → Bool → Event
  looks : Bool → Event

abbrev pub happen : Monitor → Event → Monitor
happen m (copies text) = record m { system = text }
happen m (sets text writes) = set m text writes
happen m (looks reads) = check_clipboard m reads

unfoldable pub happens : Monitor → List Event → Monitor
happens m [] = m
happens m (e ∷ es) = happens (happen m e) es

-- The texts that may be reported, as they are read: what the user copied, and what a client set that is not
-- read as it was written, since newlines end it.
abbrev pub fresh_text : List String → Event → List String
fresh_text ts (copies text) = trim_newlines text ∷ ts
fresh_text ts (sets text false) = ts
fresh_text ts (sets text true) = if trim_newlines text == text then ts else trim_newlines text ∷ ts
fresh_text ts (looks reads) = ts

unfoldable pub fresh_texts : List String → List Event → List String
fresh_texts ts [] = ts
fresh_texts ts (e ∷ es) = fresh_texts (fresh_text ts e) es

abbrev pub is_among : List String → String → Bool
is_among ts text = any (λ t. t == text) ts

-- What is read from the clipboard is known to the monitor, or may be reported; and what was reported might be.
pub record IsQuiet (ts : List String) (m : Monitor) : Type 0 where
  pub known :
      (trim_newlines m.system ≡ m.last_content) ⊎ (is_among ts (trim_newlines m.system) ≡ true)
  pub reported_fresh : All (λ t. is_among ts t ≡ true) m.reported

-- `checkClipboard` reads before it takes the lock. Where a client's text is set between the read of another
-- text and its comparison, there is a callback, both texts are more than newlines, and the one that was
-- read differs from the client's as it is written and as it is read, both are reported without the newlines at
-- their end: first the text that is gone, and at the next look the client's own.
pub stale_read_echoes :
    (m : Monitor) (text : String)
    → m.has_callback ≡ true
    → trim_newlines m.system ≢ ""
    → trim_newlines text ≢ ""
    → text ≢ trim_newlines m.system
    → trim_newlines text ≢ trim_newlines m.system
    → (check_clipboard (compare_content (set m text true) (trim_newlines m.system)) true).reported
      ≡ trim_newlines text ∷ trim_newlines m.system ∷ m.reported
unfolding set check_clipboard compare_content
stale_read_echoes m text callback some_text new_text other apart = ground (
  arith,
  callback,
  some_text,
  new_text,
  other,
  apart,
  ==_iff (trim_newlines m.system) text,
  ==_iff (trim_newlines text) (trim_newlines m.system),
  ==_iff (trim_newlines m.system) "",
  ==_iff (trim_newlines text) "",
)
