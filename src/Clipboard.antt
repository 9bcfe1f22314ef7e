-- ===== src/Clipboard.antt =====
-- internal/host/clipboard.go: the monitor of the clipboard. The clipboard of the system is part of
-- the state; whether the system reads or writes it is an argument. `reported` holds the texts for which
-- the callback was called, which sends them to the client.
pub mod Echo
mod Tests
use remotty.Base.{
  String, Bool, true, false, ◌&&◌, not, List, [], ◌∷◌, Option, none, some, ◌==◌, string_key,
  if◌then◌else◌,
}
use remotty.Base.Text.{trim_newlines}

pub record Monitor : Type 0 where
  pub last_content : String
  pub running : Bool
  pub has_callback : Bool
  pub system : String
  pub reported : List String

unfoldable pub new_clipboard_monitor : String → Monitor
new_clipboard_monitor system = record {
  last_content = "";
  running = false;
  has_callback = false;
  system = system;
  reported = [];
}

abbrev pub on_change : Monitor → Monitor
on_change m = record m { has_callback = true }

-- `readClipboard`: what the command prints, without the newlines at its end; none if it fails.
abbrev pub read_clipboard : Monitor → Bool → Option String
read_clipboard m reads = if reads then some (trim_newlines m.system) else none

-- A failed read gives the empty text.
abbrev pub text_or_empty : Option String → String
text_or_empty none = ""
text_or_empty (some text) = text

unfoldable pub start : Monitor → Bool → Monitor
start m reads =
    if m.running
    then m
    else record m { running = true; last_content = text_or_empty (read_clipboard m reads) }

unfoldable pub stop : Monitor → Monitor
stop m = if m.running then record m { running = false } else m

-- `Set`: the text of a client.
unfoldable pub set : Monitor → String → Bool → Monitor
set m text writes = if writes then record m { system = text; last_content = text } else m

-- The part of `checkClipboard` after the read, which takes the lock.
unfoldable pub compare_content : Monitor → String → Monitor
compare_content m content =
    if not (content == m.last_content) && not (content == "")
    then record m {
      last_content = content;
      reported = if m.has_callback then content ∷ m.reported else m.reported;
    }
    else m

-- `checkClipboard`, where nothing comes between the read and the rest.
unfoldable pub check_clipboard : Monitor → Bool → Monitor
unfolding compare_content
check_clipboard m reads = elim (read_clipboard m reads) [
  | none ↦ m
  | some content ↦ compare_content m content
]
