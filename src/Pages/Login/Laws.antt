-- ===== src/Pages/Login/Laws.antt =====
-- What the answer of the login provider brings about.
use sgtm.Common.{
  arith, ◌≡◌, refl, sym, ap, ◌⊎◌, inl, inr, some, str_eq, eq_iff, String, true, false, not,
}
use sgtm.Common.Int.{ℤ}
use sgtm.Pb.{User}
use sgtm.Db.{Result, ok, then_result}
use sgtm.Service.{Service, Token, SigningMethod, hmac, DiscordUser, OauthToken}
use sgtm.Service.Auth.{
  auth_generate_state, wrap, check_token, key_func, parse_jwt_token, redirect_url,
}
use sgtm.Service.Reads.{err_render_html-Reads}
use sgtm.Service.Laws.{Identity}
use sgtm.Pages.Login.{
  check_state, check_discord_user, identify, profile_of, claims_for, start_session,
  http_auth_callback,
}
use sgtm.Web.{Request, World}
use sgtm.Web.Finds.{
  Finds, Finds->>=, Finds->>, Finds-then, Finds-pure, Finds-halt, Finds-if, Finds-ask,
  Finds-value_or, Finds-Reads, Answers-ok,
}
use sgtm.Web.Ends.{Ends, Ends->>=, Ends-Reads, Ends-weaken}
use sgtm.Web.Leads.{Ends-act->>=}
use sgtm.Web.Hoare.{reads}
use mathlib.Core.Path.{subst}

module _ {S : Type 0} (svc : Service S) (r : Request) (s : S) where
  -- The provider vouches for the user behind the request.
  pub record IsLogin : Type 0 where
    pub state : r.query "state" ≡ auth_generate_state svc r
    pub token : OauthToken
    pub exchanged : svc.platform.exchange (redirect_url svc r) (r.query "code") ≡ ok token
    pub user : DiscordUser
    pub answered : svc.platform.discord_user token ≡ ok user
    pub verified : user.is_verified ≡ true
    pub no_bot : user.is_bot ≡ false

  check_state-same : Finds s (λ _. auth_generate_state svc r ≡ r.query "state") (check_state svc r)
  unfolding check_state
  check_state-same =
      Finds-if (not (str_eq (auth_generate_state svc r) (r.query "state")))
        (λ _. Finds->> (err_render_html-Reads svc r _ 400) (Finds-halt _))
        (λ e.
          Finds-pure tt ((eq_iff (auth_generate_state svc r) (r.query "state")).0 (ground arith)))

  check_discord_user-Checked :
      (u : DiscordUser)
      → Finds s (λ _. (u.is_verified ≡ true) × (u.is_bot ≡ false)) (check_discord_user svc r u)
  unfolding check_discord_user
  check_discord_user-Checked u =
      Finds-if (not u.is_verified)
        (λ _. Finds->> (err_render_html-Reads svc r _ 403) (Finds-halt _))
        (λ e.
          Finds-if u.is_bot (λ _. Finds->> (err_render_html-Reads svc r _ 403) (Finds-halt _))
            (λ f. Finds-pure tt (ground arith, f)))

  pub identify-IsLogin :
      Finds s
        (λ (known : OauthToken × DiscordUser). (h : IsLogin) × (h.user ≡ known.1))
        (identify svc r)
  unfolding identify
  identify-IsLogin = Finds-then check_state-same λ _ state. Finds->>= (Finds-ask _) λ x exchanged.
      Finds->>= (Finds-value_or x (λ e. err_render_html-Reads svc r e 422)) λ token is_token.
        Finds->>= (Finds-ask _) λ y answered.
          Finds->>= (Finds-value_or y (λ e. err_render_html-Reads svc r e 422)) λ u is_u.
            Finds-then (check_discord_user-Checked u) λ _ checked. Finds-pure _ (
              record {
                state = sym state;
                token = token;
                exchanged = Answers-ok _ x token exchanged is_token;
                user = u;
                answered = Answers-ok _ y u answered is_u;
                verified = checked.0;
                no_bot = checked.1;
              },
              refl,
            )

  -- The database behind `CreateUser` of the profile, and behind the id of the session.
  abbrev pub with_user_of : DiscordUser → S
  with_user_of u = (svc.store.create_user (profile_of svc u) s).1

  abbrev pub LoggedIn : DiscordUser → S → Type 0
  LoggedIn u s' = (s' ≡ with_user_of u) ⊎ (s' ≡ (svc.generate (with_user_of u)).1)

  abbrev pub Entered : S → Type 0
  Entered s' = (s' ≡ s) ⊎ ((h : IsLogin) × LoggedIn h.user s')

  start_session-LoggedIn :
      (known : OauthToken × DiscordUser) → Ends s (LoggedIn known.1) (start_session svc r known)
  unfolding start_session
  start_session-LoggedIn (token, u) =
      Ends-act->>= (svc.store.create_user (profile_of svc u)) (inl refl) λ x.
        Ends->>= {P = λ _. Unit {0}} (Finds-Reads (search (reads, err_render_html-Reads)))
          (inl refl)
          λ stored _.
            Ends-act->>= svc.generate (inr refl)
              λ y. Ends-Reads (search (reads, err_render_html-Reads) depth 12) (inr refl)

module _ {S : Type 0} where
  -- However a request to the login callback ends, the database is as it was, or it is what
  -- `CreateUser` of the provider's profile made of it, and then perhaps the drawing of an id, and
  -- then the request's state is the one that its own user agent gives with the client secret, its
  -- code is exchanged for a token, and the provider knows the token's user, with a verified address
  -- and as no bot.
  pub http_auth_callback-IsLogin :
      (svc : Service S) (r : Request) (w : World S)
      → Entered svc r w.db (http_auth_callback svc r w).1.db
  unfolding http_auth_callback
  http_auth_callback-IsLogin svc r w =
      let h : Ends w.db (Entered svc r w.db) (http_auth_callback svc r) =
        Ends->>= (identify-IsLogin svc r w.db) (inl refl) λ known (login, same).
          Ends-weaken (start_session-LoggedIn svc r w.db known)
            (λ s' made. inr (login, subst (λ u. LoggedIn svc r w.db u s') (sym same) made)) in
      h.ended w refl

  -- If package jwt parses a text, with every key function that gives the service's signing key for
  -- HMAC, to a valid token with the claims that a login makes for a user, then a request with that
  -- text as its cookie is signed in as the user whom the store then has under that id.
  pub claims_for-Identity :
      (svc : Service S) (r : Request) (s : S) (u stored : User) (token : OauthToken) (id : ℤ)
      (text : String)
      → ((f : SigningMethod → Result String)
          → f hmac ≡ ok svc.opts.jwt_signing_key
          → svc.platform.parse_with_claims text f
            ≡ ok (record { claims = claims_for svc u token id; valid = true }))
      → r.oauth_cookie ≡ some text
      → svc.store.get_user_recent_post u.id s ≡ ok stored
      → Identity svc r s stored
  unfolding claims_for parse_jwt_token key_func
  claims_for-Identity svc r s u stored token id text parses cookie loaded = record {
    text = text;
    claims = claims_for svc u token id;
    session = record { user_id = u.id; discord_access_token = token.access_token };
    cookie = cookie;
    parsed =
        ap (λ (x : Result Token). then_result (wrap "parse with claims" x) (check_token svc))
          (parses (key_func svc) refl);
    has_session = refl;
    loaded = loaded;
  }
