-- ===== src/Opts/Laws.antt =====
-- What the filter of the options hides, and what the defaults fill.
use Prim.Native.String
use mathlib.Core.Bool.{false≢true}
use text.Mathlib.TextLemmas.{length-cons, length-nil}
use mathlib.Core.Path.{subst}
use sgtm.Common.{
  sym, ap, ◌∙◌, Option-cases, ℕ, zero, suc, ◌≡◌, ◌≢◌, refl, ◌<◌, String, Option, none, some, arith,
  str_eq, eq_iff, Bool-cases, inl, inr, is_none, false,
}
use sgtm.Opts.{
  Opts, node_or_new, key_or_random, hide, or_text, or_number, filtered, filtering_string,
  set_defaults, rand_string, char_at, letter_bytes, apply_defaults, Defaults,
}
use sgtm.Db.{ok, then_result-eq-ok, ok_inj}

-- The four secrets of a service that has them all.
pub record Secrets : Type 0 where
  pub token : String
  pub channel : String
  pub client_secret : String
  pub signing_key : String

abbrev pub AreSet : Secrets → Type 0
AreSet s = (s.token ≢ "") × (s.channel ≢ "") × (s.client_secret ≢ "") × (s.signing_key ≢ "")

abbrev pub with_secrets : Opts → Secrets → Opts
with_secrets o s = record o {
  discord_token = s.token;
  discord_admin_channel = s.channel;
  discord_client_secret = s.client_secret;
  jwt_signing_key = s.signing_key;
}

hide_set : (secret : String) → secret ≢ "" → hide secret ≡ filtering_string
unfolding hide
hide_set secret h = ground (arith, eq_iff secret "")

or_text_idem : (v d : String) → or_text (or_text v d) d ≡ or_text v d
unfolding or_text
or_text_idem v d = ground (arith, eq_iff v "")

or_number_idem : (v d : ℕ) → or_number (or_number v d) d ≡ or_number v d
unfolding or_number
or_number_idem v d = ground arith

-- Two options that differ only in the Discord token, admin channel and client secret and in the
-- signing key, all four set in both, are filtered to the same.
pub filtered_hides :
    (o : Opts) (s s' : Secrets)
    → AreSet s
    → AreSet s'
    → filtered (with_secrets o s) ≡ filtered (with_secrets o s')
unfolding filtered
filtered_hides o s s' h h' = rw (
  hide_set s.token h.0,
  hide_set s.channel h.1,
  hide_set s.client_secret h.2,
  hide_set s.signing_key h.3,
  hide_set s'.token h'.0,
  hide_set s'.channel h'.1,
  hide_set s'.client_secret h'.2,
  hide_set s'.signing_key h'.3,
)

-- The filter keeps the bearer token and the SoundCloud client id in clear.
pub filtered_keeps :
    (o : Opts)
    → ((filtered o).bearer_token ≡ o.bearer_token)
      × ((filtered o).sound_cloud_client_id ≡ o.sound_cloud_client_id)
unfolding filtered
filtered_keeps o = (refl, refl)

-- The defaults set twice are the defaults set once.
pub set_defaults_idem : (o : Opts) → set_defaults (set_defaults o) ≡ set_defaults o
unfolding set_defaults
set_defaults_idem o = simp (or_text_idem, or_number_idem)

char_at_total : (s : String) (i : ℕ) → i < String.count s → is_none (char_at s i) ≡ false
unfolding char_at
char_at_total String.[] i h = absurd (omega (arith, length-nil))
char_at_total (String.◌∷◌ c s) zero h = refl
char_at_total (String.◌∷◌ c s) (suc i) h = char_at_total s i (omega (arith, length-cons c s))

-- With draws below 52 a random text of every length is made, and it has that length.
pub rand_string_total :
    (draw : ℕ → ℕ) (n : ℕ)
    → ((i : ℕ) → draw i < 52)
    → (s : String) × (rand_string draw n ≡ some s) × (String.count s ≡ n)
unfolding rand_string
rand_string_total draw zero h = ("", refl, refl)
rand_string_total draw (suc n) h = elim (Option-cases (char_at letter_bytes (draw n))) [
  | inl out ↦ absurd (false≢true (sym (char_at_total letter_bytes (draw n) (h n)) ∙ ap is_none out))
  | inr (c, found) ↦
      let (s, rest, size) = rand_string_total draw n h in
      (String.◌∷◌ c s, rw (found, rest) refl, length-cons c s ∙ ap suc size)
]

rand_string-count :
    (draw : ℕ → ℕ) (n : ℕ) (s : String) → rand_string draw n ≡ some s → String.count s ≡ n
unfolding rand_string
rand_string-count draw zero s h = let same : "" ≡ s = cc in ap String.count (sym same) ∙ length-nil
rand_string-count draw (suc n) s h = elim (Option-cases (char_at letter_bytes (draw n))) [
  | inl out ↦ let no_text = rw (out, rand_string) at h in cc
  | inr (c, found) ↦ elim (Option-cases (rand_string draw n)) [
    | inl none_left ↦ let no_text = rw (found, none_left, rand_string) at h in cc
    | inr (rest, made) ↦
        let whole : String.◌∷◌ c rest ≡ s = ground arith in
        ap String.count (sym whole)
        ∙ length-cons c rest
        ∙ ap suc (rand_string-count draw n rest made)
  ]
]

node_or_new_lem :
    (env : Defaults) (node made : Option ℕ) → node_or_new env node ≡ ok made → is_none made ≡ false
node_or_new_lem env (some node) made h = ground arith
node_or_new_lem env none made h =
    let (node, fresh, e) = then_result-eq-ok (env.new_node 1) _ h in
    let whole : some node ≡ made = cc in subst (λ m. is_none m ≡ false) whole refl

key_or_random_lem :
    (env : Defaults) (key made : String) → key_or_random env key ≡ ok made → made ≢ ""
key_or_random_lem env key made h = elim (Bool-cases (str_eq key "")) [
  | inl missing ↦ elim (Option-cases (rand_string env.draw 42)) [
    | inl out ↦ absurd (ground arith)
    | inr (text, drawn) ↦
        let kept : text ≡ made = ground arith in
        let size = rand_string-count env.draw 42 text drawn in
        λ empty. absurd (omega (arith, sym size ∙ ap String.count (kept ∙ empty), length-nil))
  ]
  | inr given ↦
      let kept : key ≡ made = ground arith in
      subst (λ k. k ≢ "") kept (ground (arith, eq_iff key ""))
]

-- Options that `apply_defaults` gives without an error have a context, a logger, a snowflake node
-- and a signing key that is not empty.
pub apply_defaults_complete :
    (env : Defaults) (o o' : Opts)
    → apply_defaults env o ≡ ok o'
    → (is_none o'.context ≡ false)
      × (is_none o'.logger ≡ false)
      × (is_none o'.snowflake ≡ false)
      × (o'.jwt_signing_key ≢ "")
unfolding apply_defaults
apply_defaults_complete env o o' e =
    let (node, made, e') = then_result-eq-ok (node_or_new env o.snowflake) _ e in
    let (key, drawn, e'') = then_result-eq-ok (key_or_random env o.jwt_signing_key) _ e' in
    let whole = ok_inj e'' in
    subst
      (λ (o : Opts).
        (is_none o.context ≡ false)
        × (is_none o.logger ≡ false)
        × (is_none o.snowflake ≡ false)
        × (o.jwt_signing_key ≢ ""))
      whole
      (
        ground arith,
        ground arith,
        node_or_new_lem env o.snowflake node made,
        key_or_random_lem env o.jwt_signing_key key drawn,
      )
