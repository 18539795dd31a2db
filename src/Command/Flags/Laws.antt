-- ===== src/Command/Flags/Laws.antt =====
-- What the flags make of the signing key.
use mathlib.Core.Path.{subst}
use sgtm.Common.{
  ℕ, ◌≡◌, refl, sym, ap, ◌∙◌, Bool, true, false, Option, none, some, String, List, [], ◌∷◌, All,
  str_eq, eq_iff, if◌then◌else◌,
}
use sgtm.Opts.{Opts}
use sgtm.Command.Flags.{
  Flag, bool_var, string_var, duration_var, flag_name, root_flags, FlagPackage, set_read, set_flag,
  set_named, then_option, set_all,
}

abbrev key_flag : String
key_flag = "jwt-signing-key"

-- The value that comes last under a name, or the one before.
abbrev pub last_given : String → List (String × String) → String → String
last_given name [] before = before
last_given name ((given, text) ∷ rest) before =
    last_given name rest (if str_eq given name then text else before)

module _ (lib : FlagPackage) where
  -- What a flag with some name makes of the key.
  abbrev Makes : String → String → Opts → Opts → Type 0
  Makes name text o o' =
      o'.jwt_signing_key ≡ (if str_eq name key_flag then text else o.jwt_signing_key)

  abbrev HasEffect : Flag → Type 0
  HasEffect f =
      (text : String) (o o' : Opts)
      → set_flag lib f text o ≡ some o'
      → Makes (flag_name f) text o o'

  some_inj : (o o' : Opts) → some o ≡ some o' → o ≡ o'
  some_inj o o' e = cc

  read-keeps :
      {A : Type 0} (set : A → Opts → Opts) (v : Option A) (o o' : Opts)
      → ((a : A) → (set a o).jwt_signing_key ≡ o.jwt_signing_key)
      → set_read set o v ≡ some o'
      → o'.jwt_signing_key ≡ o.jwt_signing_key
  read-keeps set none o o' keeps e = cc
  read-keeps set (some a) o o' keeps e =
      subst (λ (x : Opts). x.jwt_signing_key ≡ o.jwt_signing_key) (some_inj (set a o) o' e)
        (keeps a)

  other :
      (name text : String) (o o' : Opts)
      → str_eq name key_flag ≡ false
      → o'.jwt_signing_key ≡ o.jwt_signing_key
      → Makes name text o o'
  other name text o o' differs same = rw differs same

  bool_var-HasEffect :
      (name : String) (set : Bool → Opts → Opts)
      → str_eq name key_flag ≡ false
      → ((v : Bool) (o : Opts) → (set v o).jwt_signing_key ≡ o.jwt_signing_key)
      → HasEffect (bool_var name set)
  unfolding set_flag
  bool_var-HasEffect name set differs keeps text o o' e =
      other name text o o' differs (read-keeps set (lib.parse_bool text) o o' (λ v. keeps v o) e)

  duration_var-HasEffect :
      (name : String) (set : ℕ → Opts → Opts)
      → str_eq name key_flag ≡ false
      → ((v : ℕ) (o : Opts) → (set v o).jwt_signing_key ≡ o.jwt_signing_key)
      → HasEffect (duration_var name set)
  unfolding set_flag
  duration_var-HasEffect name set differs keeps text o o' e =
      other name text o o' differs
        (read-keeps set (lib.parse_duration text) o o' (λ v. keeps v o) e)

  string_var-HasEffect :
      (name : String) (set : String → Opts → Opts)
      → str_eq name key_flag ≡ false
      → ((v : String) (o : Opts) → (set v o).jwt_signing_key ≡ o.jwt_signing_key)
      → HasEffect (string_var name set)
  unfolding set_flag
  string_var-HasEffect name set differs keeps text o o' e = other name text o o' differs (
      subst (λ (x : Opts). x.jwt_signing_key ≡ o.jwt_signing_key) (some_inj (set text o) o' e)
        (keeps text o))

  key_var-HasEffect : HasEffect (string_var key_flag (λ v o. record o { jwt_signing_key = v }))
  unfolding set_flag
  key_var-HasEffect text o o' e =
      ap (λ (x : Opts). x.jwt_signing_key)
        (sym (some_inj (record o { jwt_signing_key = text }) o' e))

  root_flags-HasEffect : All HasEffect root_flags
  unfolding root_flags
  root_flags-HasEffect = (
    bool_var-HasEffect _ _ refl (λ v o. refl),
    (
      bool_var-HasEffect _ _ refl (λ v o. refl),
      (
        string_var-HasEffect _ _ refl (λ v o. refl),
        (
          string_var-HasEffect _ _ refl (λ v o. refl),
          (
            string_var-HasEffect _ _ refl (λ v o. refl),
            (
              bool_var-HasEffect _ _ refl (λ v o. refl),
              (
                string_var-HasEffect _ _ refl (λ v o. refl),
                (
                  string_var-HasEffect _ _ refl (λ v o. refl),
                  (
                    duration_var-HasEffect _ _ refl (λ v o. refl),
                    (
                      duration_var-HasEffect _ _ refl (λ v o. refl),
                      (
                        bool_var-HasEffect _ _ refl (λ v o. refl),
                        (
                          string_var-HasEffect _ _ refl (λ v o. refl),
                          (
                            string_var-HasEffect _ _ refl (λ v o. refl),
                            (
                              key_var-HasEffect,
                              (
                                string_var-HasEffect _ _ refl (λ v o. refl),
                                (
                                  string_var-HasEffect _ _ refl (λ v o. refl),
                                  (
                                    string_var-HasEffect _ _ refl (λ v o. refl),
                                    (
                                      string_var-HasEffect _ _ refl (λ v o. refl),
                                      (bool_var-HasEffect _ _ refl (λ v o. refl), tt),
                                    ),
                                  ),
                                ),
                              ),
                            ),
                          ),
                        ),
                      ),
                    ),
                  ),
                ),
              ),
            ),
          ),
        ),
      ),
    ),
  )

  found-Makes :
      (f : Flag) (name text : String) (o o' : Opts)
      → HasEffect f
      → str_eq (flag_name f) name ≡ true
      → set_flag lib f text o ≡ some o'
      → Makes name text o o'
  found-Makes f name text o o' effect same e =
      subst (λ (n : String). Makes n text o o') ((eq_iff (flag_name f) name).0 same)
        (effect text o o' e)

  set_named-Makes :
      (fs : List Flag) (name text : String) (o o' : Opts)
      → All HasEffect fs
      → set_named lib fs name text o ≡ some o'
      → Makes name text o o'
  unfolding set_named
  set_named-Makes [] name text o o' effects e = cc
  set_named-Makes (f ∷ fs) name text o o' effects e =
      by_test (str_eq (flag_name f) name) refl e (set_named-Makes fs name text o o' effects.1)
    where
      by_test :
          (b : Bool)
          → str_eq (flag_name f) name ≡ b
          → (if b then set_flag lib f text o else set_named lib fs name text o) ≡ some o'
          → (set_named lib fs name text o ≡ some o' → Makes name text o o')
          → Makes name text o o'
      by_test true same e later = found-Makes f name text o o' effects.0 same e
      by_test false same e later = later e

  -- Where the given flags are all known and their values can be read, the signing key is the last
  -- value that is given under the name "jwt-signing-key", or the one before if there is none: no
  -- other flag touches it.
  pub set_all-last_given :
      (given : List (String × String)) (o o' : Opts)
      → set_all lib given o ≡ some o'
      → o'.jwt_signing_key ≡ last_given "jwt-signing-key" given o.jwt_signing_key
  unfolding set_all
  set_all-last_given [] o o' e = sym (ap (λ (x : Opts). x.jwt_signing_key) (some_inj o o' e))
  set_all-last_given ((name, text) ∷ rest) o o' e =
      by_first (set_named lib root_flags name text o) refl e
        (λ o1 k. set_all-last_given rest o1 o' k)
    where
      by_first :
          (first : Option Opts)
          → set_named lib root_flags name text o ≡ first
          → then_option lib first (set_all lib rest) ≡ some o'
          → ((o1 : Opts)
              → set_all lib rest o1 ≡ some o'
              → o'.jwt_signing_key ≡ last_given "jwt-signing-key" rest o1.jwt_signing_key)
          → o'.jwt_signing_key
            ≡ last_given "jwt-signing-key" rest
                (if str_eq name "jwt-signing-key" then text else o.jwt_signing_key)
      by_first none same k later = cc
      by_first (some o1) same k later =
          later o1 k
          ∙ ap (last_given "jwt-signing-key" rest)
              (set_named-Makes root_flags name text o o1 root_flags-HasEffect same)
