-- ===== src/Config/Accepted.antt =====
-- internal/config/config.go: what a configuration that passes `Validate` means for the parts that read it.
use remotty.Base.{
  ℕ, ◌≡◌, refl, ◌≢◌, inl, inr, String, Bool, true, false, List, [], ◌∷◌, string_key, arith, ap, ◌∙◌,
  sym, All, Bool-cases, if_case, All-map, true≢false, map,
}
use remotty.Base.Text.{equal_fold, fold_code, equal_codes, codes}
use remotty.Config.{Config, LoggingConfig}
use remotty.Config.Levels.{info_level, lower_is, lower_code, lower_among, parse_level}
use remotty.Config.Validate.{
  complaints, after_validate, normalized_feature, normalized_features, is_feature, valid_features,
  valid_levels,
}
use remotty.Config.Checks.{complaints_iff}
use remotty.Signal.State.{Server}
use remotty.Signal.Access.{Request, upgraded, presented, handle_web_socket}
use remotty.Signal.Gate.{handle_web_socket_outcome}

-- A server that runs with an accepted configuration outside of development lets nobody in without the token:
-- whatever the WebSocket library answers, it stays as it was and takes in no peer.
pub accepted-keeps_out :
    (c : Config) (s : Server) (r : Request) (upgrades : Bool) (now : ℕ)
    → complaints c ≡ []
    → c.signal.dev_mode ≡ false
    → s.cfg ≡ c.signal
    → presented r ≢ c.signal.auth_token
    → let out = handle_web_socket s r upgrades now in (out.0 ≡ s) × ((p : ℕ) → out.1 ≢ upgraded p)
accepted-keeps_out c s r upgrades now valid off same wrong =
    let token = ((complaints_iff c).0 valid).secure.token off in
    let given : s.cfg.auth_token ≡ c.signal.auth_token = ap (λ cfg. cfg.auth_token) same in
    elim (handle_web_socket_outcome s r upgrades now) [
      | inl (admitted, fine, in_now) ↦ elim admitted.token_right [
        | inl empty ↦ absurd (token (sym given ∙ empty))
        | inr right ↦ absurd (wrong (right ∙ given))
      ]
      | inr (kept, nobody, why) ↦ (kept, nobody)
    ]

-- A feature that `Validate` keeps as it is.
abbrev pub IsSettled : String → Type 0
IsSettled f = (is_feature valid_features f ≡ true) × (normalized_feature valid_features f ≡ f)

-- The spelling that `Validate` writes.
feature-IsSettled :
    (f : String)
    → is_feature valid_features f ≡ true
    → IsSettled (normalized_feature valid_features f)
unfolding is_feature normalized_feature equal_fold fold_code equal_codes
feature-IsSettled f h =
    if_case IsSettled (equal_fold f "terminal") _ _ (λ e. (refl, refl))
      (λ a.
        if_case IsSettled (equal_fold f "screen") _ _ (λ e. (refl, refl))
          (λ b.
            if_case IsSettled (equal_fold f "clipboard") _ _ (λ e. (refl, refl))
              (λ c.
                if_case IsSettled (equal_fold f "file_transfer") _ _ (λ e. (refl, refl))
                  (λ d. absurd (true≢false h (ground (arith, a, b, c, d)))))))

features-IsSettled :
    (fs : List String)
    → All (λ f. is_feature valid_features f ≡ true) fs
    → All IsSettled (normalized_features fs)
unfolding normalized_features
features-IsSettled [] h = tt
features-IsSettled (f ∷ fs) h = (feature-IsSettled f h.0, features-IsSettled fs h.1)

settled-kept : (fs : List String) → All IsSettled fs → normalized_features fs ≡ fs
unfolding normalized_features
settled-kept [] h = refl
settled-kept (f ∷ fs) h = cc (h.0.1, settled-kept fs h.1)

-- A configuration that passes is left with its features in the spelling of the list, and passes again
-- without being changed.
pub validate-settles :
    (c : Config)
    → complaints c ≡ []
    → (complaints (after_validate c) ≡ [])
      × ((after_validate (after_validate c) ≡ after_validate c)
          × All IsSettled (after_validate c).host.features)
unfolding after_validate
validate-settles c valid =
    let v = (complaints_iff c).0 valid in
    let settled = features-IsSettled c.host.features v.host.features in
    let same = settled-kept (normalized_features c.host.features) settled in
    (
      (complaints_iff (after_validate c)).1 (record {
        data_dir = v.data_dir;
        signal = v.signal;
        host = record {
          named = v.host.named;
          url = v.host.url;
          wait = v.host.wait;
          max_wait = v.host.max_wait;
          heartbeat = v.host.heartbeat;
          timeout = v.host.timeout;
          sessions = v.host.sessions;
          features =
              All-map IsSettled (λ f. is_feature valid_features f ≡ true)
                (normalized_features c.host.features) (λ f h. h.0) settled;
        };
        client_url = v.client_url;
        webrtc = v.webrtc;
        screen = v.screen;
        level = v.level;
        format = v.format;
        secure = record {
          token = v.secure.token;
          password = v.secure.password;
          one_password = v.secure.one_password;
        };
      }),
      (ap (λ fs. record c { host = record c.host { features = fs } }) same, settled),
    )

equal_codes-same : (a b : List ℕ) → equal_codes a b ≡ true → a ≡ b
unfolding equal_codes
equal_codes-same [] [] h = refl
equal_codes-same [] (b ∷ bs) h = absurd (cc)
equal_codes-same (a ∷ as') [] h = absurd (cc)
equal_codes-same (a ∷ as') (b ∷ bs) h =
    let here : a ≡ b = ground (arith, h) in
    let rest : equal_codes as' bs ≡ true = ground (arith, h) in
    cc (here, equal_codes-same as' bs rest)

-- A text that is one word up to case is another word only if the two are the same.
lower_is-other :
    (s t t' : String) → lower_is s t ≡ true → lower_is s t' ≡ equal_codes (codes t) (codes t')
unfolding lower_is
lower_is-other s t t' h =
    ap (λ cs. equal_codes cs (codes t')) (equal_codes-same (map lower_code (codes s)) (codes t) h)

-- A word that is none of the four that `ParseLevel` knows.
unknown_level :
    (l : LoggingConfig) (t : String)
    → lower_is l.level t ≡ true
    → equal_codes (codes t) (codes "debug") ≡ false
    → equal_codes (codes t) (codes "info") ≡ false
    → equal_codes (codes t) (codes "warn") ≡ false
    → equal_codes (codes t) (codes "error") ≡ false
    → parse_level l ≡ info_level
unfolding parse_level
unknown_level l t is_t d i w e =
    rw
      (
        lower_is-other l.level t "debug" is_t ∙ d,
        lower_is-other l.level t "info" is_t ∙ i,
        lower_is-other l.level t "warn" is_t ∙ w,
        lower_is-other l.level t "error" is_t ∙ e,
      )
      refl

-- The levels that `Validate` takes and `ParseLevel` does not know: in any case of letters, a level "trace",
-- "fatal" or "disabled" passes the check of the level and is run as "info".
pub levels_lost :
    (l : LoggingConfig)
    → lower_among ("trace" ∷ "fatal" ∷ "disabled" ∷ []) l.level ≡ true
    → (lower_among valid_levels l.level ≡ true) × (parse_level l ≡ info_level)
unfolding lower_among equal_codes
levels_lost l h = (
  ground (arith, h),
  elim (Bool-cases (lower_is l.level "trace")) [
    | inl t ↦ unknown_level l "trace" t refl refl refl refl
    | inr t ↦ elim (Bool-cases (lower_is l.level "fatal")) [
      | inl f ↦ unknown_level l "fatal" f refl refl refl refl
      | inr f ↦ unknown_level l "disabled" (ground (arith, h, t, f)) refl refl refl refl
    ]
  ],
)
