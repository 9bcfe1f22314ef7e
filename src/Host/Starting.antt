-- ===== src/Host/Starting.antt =====
-- internal/host/daemon.go: what `NewDaemon` starts with.
use remotty.Base.{
  ap, ◌≡◌, refl, ◌≢◌, ◌⊎◌, inl, inr, String, true, false, Option, none, some, string_key, arith,
  ==_iff, Bool-cases, Option-cases, some_inj, ◌&&◌, ◌==◌, not, sym, ◌∙◌,
}
use remotty.Host.{HostConfig, Daemon, Environment, hashed, with_defaults, idle_daemon, new_daemon}

-- A daemon that is made starts idle, with the hashed password and the defaults, unless it requires a
-- password that is not there.
pub new_daemon-made :
    (hash_password : String → Option String) (env : Environment) (cfg : HostConfig) (d : Daemon)
    → new_daemon hash_password env cfg ≡ some d
    → (c : HostConfig) × (hashed hash_password cfg ≡ some c)
      × ((c.require_auth && c.master_hash == "" && c.master_password == "") ≡ false)
      × (d ≡ idle_daemon (with_defaults env c))
unfolding new_daemon
new_daemon-made hash_password env cfg d e = elim (Option-cases (hashed hash_password cfg)) [
  | inl failed ↦
      let gone : new_daemon hash_password env cfg ≡ none = rw (failed, new_daemon) refl in
      absurd (cc (gone, e))
  | inr (c, made) ↦
      elim (Bool-cases (c.require_auth && c.master_hash == "" && c.master_password == "")) [
        | inl bare ↦
            let gone : new_daemon hash_password env cfg ≡ none = rw (made, bare, new_daemon) refl in
            absurd (cc (gone, e))
        | inr fine ↦
            let there : new_daemon hash_password env cfg
                ≡ some (idle_daemon (with_defaults env c)) =
              rw (made, fine, new_daemon) refl in
            (c, made, fine, some_inj _ _ (sym e ∙ there))
      ]
]

-- The configuration that is hashed: the same, or with the hash of a plain password.
pub hashed-cases :
    (hash_password : String → Option String) (cfg c : HostConfig)
    → hashed hash_password cfg ≡ some c
    → (((not (cfg.master_password == "") && cfg.master_hash == "") ≡ false) × (cfg ≡ c))
      ⊎ ((hash : String) × (hash_password cfg.master_password ≡ some hash)
          × (record cfg { master_hash = hash } ≡ c))
unfolding hashed
hashed-cases hash_password cfg c made =
    elim (Bool-cases (not (cfg.master_password == "") && cfg.master_hash == "")) [
      | inl plain ↦ elim (Option-cases (hash_password cfg.master_password)) [
        | inl failed ↦
            let gone : hashed hash_password cfg ≡ none = rw (plain, failed, hashed) refl in
            absurd (cc (gone, made))
        | inr (hash, hashes) ↦
            let there : hashed hash_password cfg ≡ some (record cfg { master_hash = hash }) =
              rw (plain, hashes, hashed) refl in
            inr (hash, hashes, some_inj _ _ (sym there ∙ made))
      ]
      | inr other ↦
          let there : hashed hash_password cfg ≡ some cfg = rw (other, hashed) refl in
          inl (other, some_inj _ _ (sym there ∙ made))
    ]

-- A configuration that is given a password, or demands one, has a hash once it is hashed.
hashed_filled :
    (hash_password : String → Option String) (cfg c : HostConfig)
    → ((password hash : String) → hash_password password ≡ some hash → hash ≢ "")
    → hashed hash_password cfg ≡ some c
    → (cfg.master_hash ≢ "") ⊎ (cfg.master_password ≢ "") ⊎ (cfg.require_auth ≡ true)
    → (c.require_auth && c.master_hash == "" && c.master_password == "") ≡ false
    → c.master_hash ≢ ""
hashed_filled hash_password cfg c filled made given fine =
    elim (hashed-cases hash_password cfg c made) [
      | inl (other, same) ↦
          let hash_same : cfg.master_hash ≡ c.master_hash = ap (λ x. x.master_hash) same in
          let password_same : cfg.master_password ≡ c.master_password =
            ap (λ x. x.master_password) same in
          let required_same : cfg.require_auth ≡ c.require_auth = ap (λ x. x.require_auth) same in
          λ empty. ground (
            arith,
            other,
            given,
            fine,
            empty,
            hash_same,
            password_same,
            required_same,
            ==_iff cfg.master_hash "",
            ==_iff cfg.master_password "",
            ==_iff c.master_hash "",
            ==_iff c.master_password "",
          )
      | inr (hash, hashes, same) ↦
          λ empty. filled cfg.master_password hash hashes (ap (λ x. x.master_hash) same ∙ empty)
    ]

pub new_daemon-IsLocked :
    (hash_password : String → Option String) (env : Environment) (cfg : HostConfig) (d : Daemon)
    → ((password hash : String) → hash_password password ≡ some hash → hash ≢ "")
    → (cfg.master_hash ≢ "") ⊎ (cfg.master_password ≢ "") ⊎ (cfg.require_auth ≡ true)
    → new_daemon hash_password env cfg ≡ some d
    → (c : HostConfig) × (c.master_hash ≢ "") × (d ≡ idle_daemon c)
unfolding with_defaults
new_daemon-IsLocked hash_password env cfg d filled given e =
    let (c, made, fine, same) = new_daemon-made hash_password env cfg d e in
    (with_defaults env c, hashed_filled hash_password cfg c filled made given fine, same)
