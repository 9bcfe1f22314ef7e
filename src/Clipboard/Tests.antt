-- ===== src/Clipboard/Tests.antt =====
-- The theorems on the clipboard at concrete inputs.
use remotty.Base.{◌≡◌, refl, true, false, List, [], ◌∷◌, string_key, ==_apart}
use remotty.Base.Text.{trim_newlines}
use remotty.Clipboard.{Monitor, start, set, compare_content, check_clipboard}
use remotty.Clipboard.Echo.{Event, copies, sets, looks, happens, stale_read_echoes}

abbrev idle : Monitor
idle = record {
  last_content = "";
  running = false;
  has_callback = true;
  system = "old";
  reported = [];
}

abbrev day : List Event
day = looks true ∷ sets "theirs" true ∷ looks true ∷ copies "mine" ∷ looks true ∷ []

day_test : (happens (start idle true) day).reported ≡ "mine" ∷ []
unfolding happens start set check_clipboard compare_content trim_newlines
day_test = refl

-- A client's text that a newline ends comes back without it.
echo_test :
    (happens (start idle true) (sets "theirs\n" true ∷ looks true ∷ [])).reported ≡ "theirs" ∷ []
unfolding happens start set check_clipboard compare_content trim_newlines
echo_test = refl

stale_read_echoes_example :
    (check_clipboard (compare_content (set idle "theirs" true) "old") true).reported
    ≡ "theirs" ∷ "old" ∷ []
unfolding trim_newlines
stale_read_echoes_example =
    stale_read_echoes idle "theirs" refl (==_apart "old" "" refl) (==_apart "theirs" "" refl)
      (==_apart "theirs" "old" refl) (==_apart "theirs" "old" refl)
