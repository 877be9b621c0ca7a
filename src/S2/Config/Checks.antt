-- ===== src/S2/Config/Checks.antt =====
-- What a connection that passes the checks keeps to: net/s2/src/config.rs, `validate`.
use gstsmith_rs.Prelude.{
  ℕ, ◌≤◌, ◌≡◌, ◌⊎◌, inl, inr, refl, Bool, true, false, not, ◌&&◌, ◌||◌, Option, none, some, ◌==◌,
  leb, leb→le, is_empty, is_some, Text, codes, text_eq, try_below, u64_mod, Bool-cases, not-true,
  ok, ok_or, Returns, done, failed, Returns-bind, Returns-guard, Returns-imp, Returns-sound, arith,
}
use gstsmith_rs.S2.Config.{
  ConnectionSettings, SinkAppendRetryPolicy, bad_account, bad_basin_endpoint, other_schemes,
  empty_token, no_basin, bad_basin, no_stream, bad_stream, bad_delays, no_attempts, bad_capacity,
  Url, Host, ValidatedConnection, filled, is_loopback_s2_lite_endpoint, check_policy,
  parse_endpoint, validate_endpoint_policy, validate_endpoints, source, load_access_token,
  endpoints_of, validate,
}

-- No user information, and HTTPS, or HTTP that stays on the machine or is allowed.
abbrev pub IsSafe : Bool → Url → Type 0
IsSafe allow u =
    (is_empty u.username ≡ true)
    × (u.password ≡ none)
    × ((text_eq u.scheme (codes "https") ≡ true)
        ⊎ ((allow || is_loopback_s2_lite_endpoint u) ≡ true))

no_user_info :
    (username : Bool) (password : Option Text)
    → (not username || is_some password) ≡ false
    → (username ≡ true) × (password ≡ none)
no_user_info true none h = (refl, refl)
no_user_info true (some p) h = absurd (cc)
no_user_info false p h = absurd (cc)

one_scheme :
    (https http local : Bool) → (https || (http && local)) ≡ true → (https ≡ true) ⊎ (local ≡ true)
one_scheme true http local h = inl refl
one_scheme false true local h = inr h
one_scheme false false local h = absurd (cc)

check_policy-IsSafe :
    (allow : Bool) (u : Url) → Returns (λ _. IsSafe allow u) (check_policy allow u)
unfolding check_policy
check_policy-IsSafe allow u =
    let user = not (is_empty u.username) || is_some u.password in
    let secure =
      text_eq u.scheme (codes "https")
      || (text_eq u.scheme (codes "http") && (allow || is_loopback_s2_lite_endpoint u)) in
    elim (Bool-cases user) [
      | inl e ↦ simp (check_policy, e) failed
      | inr e ↦ elim (Bool-cases secure) [
        | inr s ↦ simp (check_policy, e, s) failed
        | inl s ↦
            let (a, b) = no_user_info (is_empty u.username) u.password e in
            simp (check_policy, e, s) (done (a, b, one_scheme _ _ _ s))
      ]
    ]

-- An endpoint whose URL is safe.
abbrev pub IsSafeEndpoint : Host → Bool → Text → Type 0
IsSafeEndpoint host allow endpoint =
    (u : Url) × (parse_endpoint host endpoint ≡ ok u) × IsSafe allow u

validate_endpoint_policy-Safe :
    (host : Host) (allow : Bool) (endpoint : Text)
    → Returns
        (λ _. IsSafeEndpoint host allow endpoint)
        (validate_endpoint_policy host endpoint allow)
unfolding validate_endpoint_policy
validate_endpoint_policy-Safe host allow endpoint =
    Returns-bind (parse_endpoint host endpoint) _
      λ u e. Returns-imp (λ _ safe. (u, e, safe)) (check_policy-IsSafe allow u)

-- Both endpoints are safe, where there are some.
abbrev pub AreSafe : Host → Bool → Option (Text × Text) → Type 0
AreSafe host allow none = Unit
AreSafe host allow (some e) = IsSafeEndpoint host allow e.0 × IsSafeEndpoint host allow e.1

validate_endpoints-Safe :
    (host : Host) (allow : Bool) (account basin : Text)
    → Returns (λ e. AreSafe host allow (some e)) (validate_endpoints host account basin allow)
unfolding validate_endpoints
validate_endpoints-Safe host allow account basin =
    Returns-bind (validate_endpoint_policy host account allow) _ λ u a.
      Returns-bind (validate_endpoint_policy host basin allow) _ λ v b.
        Returns-guard (host.is_account_endpoint account) bad_account _ λ _.
          Returns-guard (host.is_basin_endpoint basin) bad_basin_endpoint _ λ _.
            Returns-guard (host.have_one_scheme account basin) other_schemes _ λ _. done (
              Returns-sound _ u (validate_endpoint_policy-Safe host allow account) a,
              Returns-sound _ v (validate_endpoint_policy-Safe host allow basin) b,
            )

endpoints_of-Safe :
    (host : Host) (allow : Bool) (account basin : Option Text)
    → Returns (AreSafe host allow) (endpoints_of host account basin allow)
unfolding endpoints_of
endpoints_of-Safe host allow none none = done tt
endpoints_of-Safe host allow (some a) none = failed
endpoints_of-Safe host allow none (some b) = failed
endpoints_of-Safe host allow (some a) (some b) =
    Returns-bind (validate_endpoints host a b allow) _
      λ e h. done (Returns-sound _ e (validate_endpoints-Safe host allow a b) h)

load_access_token-full :
    (host : Host) (path : Option Text)
    → Returns (λ token. is_empty token ≡ false) (load_access_token host path)
unfolding load_access_token
load_access_token-full host path =
    Returns-bind (source host path) _
      λ token _. Returns-guard (not (is_empty token)) empty_token _ λ full. done (not-true _ full)

filled-full : (o : Option Text) → Returns (λ t. is_empty t ≡ false) (ok_or (filled o) no_basin)
filled-full none = failed
filled-full (some t) = elim (Bool-cases (is_empty t)) [
  | inl e ↦ rw e failed
  | inr e ↦ rw e (done e)
]

-- What a validated connection keeps to.
pub record IsConnection (host : Host) (s : ConnectionSettings) (c : ValidatedConnection)
    : Type 0 where
  pub has_basin : is_empty c.basin ≡ false
  pub has_token : is_empty c.s2.token ≡ false
  pub has_attempts : 1 ≤ c.s2.max_attempts
  pub in_order : c.s2.min_base_delay ≤ c.s2.max_base_delay
  pub are_safe : AreSafe host s.allow_insecure_endpoints c.s2.endpoints

one_attempt : (n : ℕ) → not (n == 0) ≡ true → 1 ≤ n
one_attempt n h = ground arith

-- A connection that the settings give has a basin, a token and an attempt, retries with delays in
-- order, and has no endpoint or two, each without user information and over HTTPS, unless the host
-- is the own machine or plaintext is allowed.
pub validate-IsConnection :
    (host : Host) (policy : SinkAppendRetryPolicy) (s : ConnectionSettings)
    → Returns (IsConnection host s) (validate host policy s)
unfolding validate
validate-IsConnection host policy s = Returns-bind (ok_or (filled s.basin) no_basin) _ λ basin b.
    Returns-guard (host.is_basin_name basin) bad_basin _ λ _.
      Returns-bind (ok_or (filled s.stream) no_stream) _ λ stream _.
        Returns-guard (host.is_stream_name stream) bad_stream _ λ _.
          Returns-guard (leb s.retry_min_delay s.retry_max_delay) bad_delays _ λ delays.
            Returns-guard (not (s.retry_max_attempts == 0)) no_attempts _ λ attempts.
              Returns-bind (ok_or (try_below u64_mod s.queue_capacity) bad_capacity) _ λ capacity _.
                Returns-bind (load_access_token host s.access_token_file) _ λ token t.
                  Returns-bind
                    (endpoints_of host (filled s.account_endpoint) (filled s.basin_endpoint)
                      s.allow_insecure_endpoints)
                    _
                    λ endpoints e. done (record {
                      has_basin = Returns-sound _ basin (filled-full s.basin) b;
                      has_token =
                          Returns-sound _ token (load_access_token-full host s.access_token_file) t;
                      has_attempts = one_attempt s.retry_max_attempts attempts;
                      in_order = leb→le s.retry_min_delay s.retry_max_delay delays;
                      are_safe =
                          Returns-sound _ endpoints
                            (endpoints_of-Safe host s.allow_insecure_endpoints
                              (filled s.account_endpoint) (filled s.basin_endpoint))
                            e;
                    })
