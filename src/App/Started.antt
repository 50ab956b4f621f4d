-- ===== src/App/Started.antt =====
-- app.go: what is open of an App after `StartServer`.
use xlgo_core.Base.{
  ℕ, ◌≡◌, inl, inr, refl, List, [], ◌∷◌, Bool, true, false, not, ◌||◌, ◌≢◌, if◌then◌else◌,
}
use xlgo_core.App.{
  App, World, Answers, AppError, hook_failed, not_listening, tls_invalid, serve_failed,
}
use xlgo_core.App.Stop.{
  shutdown_after_start_failure, some_fails, on_starts, on_readies, Serving, serving_fails,
  signalled, closed_elsewhere, Network, served, start_server, started,
}
use xlgo_core.App.Phases.{Over, Phase, Settled, Phase-view, shutdown-Over, shut-Over}

-- Somebody else closes the server.
abbrev pub closed_by_another : Network → Bool
closed_by_another n = n.closed_early || elim n.serving [ closed_elsewhere ↦ true | _ ↦ false ]

module _ (id : ℕ) (w : World) where
  failed-Over :
      (s : Answers) (a : App) (e : AppError) (es : List AppError)
      → Phase id w a
      → Over id w (shutdown_after_start_failure s (a, e ∷ es)).0
  unfolding shutdown_after_start_failure
  failed-Over s a e es v = shutdown-Over id w s a v

  pub Over-Phase : (a : App) → Over id w a → Phase id w a
  Over-Phase a v = inr (inr v)

  served-Over :
      (s : Answers) (x : Serving) (a : App)
      → x ≢ closed_elsewhere
      → Phase id w a
      → Over id w (served s x a).0
  unfolding served
  served-Over s serving_fails a ne v = failed-Over s a serve_failed [] v
  served-Over s closed_elsewhere a ne v = absurd (ne refl)
  served-Over s signalled a ne v = shutdown-Over id w s a v

  silent-Phase : (a : App) → Phase id w a → Phase id w (record a { listening = false })
  silent-Phase a v =
      Phase-view id w a (record a { listening = false }) refl refl refl refl refl refl v

  served-Phase : (s : Answers) (x : Serving) (a : App) → Phase id w a → Phase id w (served s x a).0
  unfolding served
  served-Phase s serving_fails a v = inr (inr (failed-Over s a serve_failed [] v))
  served-Phase s closed_elsewhere a v = silent-Phase a v
  served-Phase s signalled a v = inr (inr (shutdown-Over id w s a v))

  either :
      (P : App → Type 0) (b : Bool) (x y : App × List AppError)
      → (b ≡ true → P x.0)
      → P y.0
      → P (if◌then◌else◌ {A = App × List AppError} b x y).0
  either P true x y u v = u refl
  either P false x y u v = v

  -- The App whose server listens
  abbrev serving_app : App → App
  serving_app a = record a { server = true; listening = true }

  -- What holds of an App that is over, and of one whose server was closed or has served, holds after
  -- `StartServer`.
  start_server-ends :
      (P : App → Type 0) (s : Answers) (n : Network) (a : App)
      → Phase id w a
      → ((x : App) → Over id w x → P x)
      → (n.closed_early ≡ true → P (record (serving_app a) { listening = false }))
      → P (served s n.serving (serving_app a)).0
      → P (start_server s n a).0
  unfolding start_server
  start_server-ends P s n a v over early later =
      let b = record a { server = true } in
      let c = serving_app a in
      let fail : App → AppError → App × List AppError =
        λ x e. shutdown_after_start_failure s (x, e ∷ []) in
      let vb = Phase-view id w a b refl refl refl refl refl refl v in
      let vc = Phase-view id w a c refl refl refl refl refl refl v in
      let failed : (x : App) → (e : AppError) → Phase id w x → P (fail x e).0 =
        λ x e u. over (fail x e).0 (failed-Over s x e [] u) in
      either P (some_fails (on_starts a.hooks)) (fail b hook_failed) _
        (λ _. failed b hook_failed vb)
        (either P (not n.listens) (fail b not_listening) _ (λ _. failed b not_listening vb)
          (either P (not n.certified) (fail b tls_invalid) _ (λ _. failed b tls_invalid vb)
            (either P n.fails_early (fail c serve_failed) _ (λ _. failed c serve_failed vc)
              (either P n.closed_early (record c { listening = false }, []) _ early
                (either P (some_fails (on_readies a.hooks)) (fail c hook_failed)
                  (served s n.serving c) (λ _. failed c hook_failed vc) later)))))

  another_false :
      (n : Network)
      → closed_by_another n ≡ false
      → (n.closed_early ≡ false) × (n.serving ≢ closed_elsewhere)
  another_false n h = split n.closed_early n.serving h
    where
      split :
          (b : Bool) (x : Serving)
          → (b || elim x [ closed_elsewhere ↦ true | _ ↦ false ]) ≡ false
          → (b ≡ false) × (x ≢ closed_elsewhere)
      split true x h = absurd (cc h)
      split false serving_fails h = (refl, λ e. cc)
      split false signalled h = (refl, λ e. cc)
      split false closed_elsewhere h = absurd (cc h)

  start_server-Over :
      (s : Answers) (n : Network) (a : App)
      → closed_by_another n ≡ false
      → Phase id w a
      → Over id w (start_server s n a).0
  start_server-Over s n a h v =
      let (early, later) = another_false n h in
      let vc = Phase-view id w a (serving_app a) refl refl refl refl refl refl v in
      start_server-ends (Over id w) s n a v (λ x u. u) (λ e. absurd (cc (e, early)))
        (served-Over s n.serving (serving_app a) later vc)

  start_server-Phase :
      (s : Answers) (n : Network) (a : App) → Phase id w a → Phase id w (start_server s n a).0
  start_server-Phase s n a v =
      let vc = Phase-view id w a (serving_app a) refl refl refl refl refl refl v in
      start_server-ends (Phase id w) s n a v Over-Phase (λ e. silent-Phase (serving_app a) vc)
        (served-Phase s n.serving (serving_app a) vc)

  kept-Over :
      (s : Answers) (x : App × List AppError)
      → Over id w x.0
      → Over id w (shutdown_after_start_failure s x).0
  unfolding shutdown_after_start_failure
  kept-Over s (a, []) v = v
  kept-Over s (a, e ∷ es) v = shut-Over id w s a v

  kept-Phase :
      (s : Answers) (x : App × List AppError)
      → Phase id w x.0
      → Phase id w (shutdown_after_start_failure s x).0
  unfolding shutdown_after_start_failure
  kept-Phase s (a, []) v = v
  kept-Phase s (a, e ∷ es) v = inr (inr (shutdown-Over id w s a v))

  pub started-Over :
      (s : Answers) (n : Network) (x : App × List AppError)
      → closed_by_another n ≡ false
      → Settled id w x
      → Over id w (started s n x).0
  unfolding started
  started-Over s n (a, []) h (inl (e, v)) =
      kept-Over s (start_server s n a) (start_server-Over s n a h v)
  started-Over s n (a, []) h (inr v) =
      kept-Over s (start_server s n a) (start_server-Over s n a h (inr (inr v)))
  started-Over s n (a, e ∷ es) h (inl (k, v)) = cc
  started-Over s n (a, e ∷ es) h (inr v) = v

  pub started-Phase :
      (s : Answers) (n : Network) (x : App × List AppError)
      → Settled id w x
      → Phase id w (started s n x).0
  unfolding started
  started-Phase s n (a, []) (inl (e, v)) =
      kept-Phase s (start_server s n a) (start_server-Phase s n a v)
  started-Phase s n (a, []) (inr v) =
      kept-Phase s (start_server s n a) (start_server-Phase s n a (inr (inr v)))
  started-Phase s n (a, e ∷ es) (inl (h, v)) = cc
  started-Phase s n (a, e ∷ es) (inr v) = inr (inr v)

  pub Settled-Phase : (x : App × List AppError) → Settled id w x → Phase id w x.0
  Settled-Phase x (inl (e, v)) = v
  Settled-Phase x (inr v) = inr (inr v)
