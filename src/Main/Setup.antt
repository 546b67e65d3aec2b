-- ===== src/Main/Setup.antt =====
-- src/main.rs, run: how the setup can end.
use k8s_sidecar_rs.Base.{
  Text, ascii, ℕ, ◌≤◌, true, Option, none, some, Result, ok, err, ◌≡◌, ◌↔◌, ◌⊎◌, inl, inr, refl,
  ◌∙◌, sym, ap, arith, Option-cases, Bool-cases, Result-cases,
}
use k8s_sidecar_rs.Kubeapi.Client.{Kube, Version, init_client, server_version}
use k8s_sidecar_rs.Host.World.{Host, World}
use k8s_sidecar_rs.Main.Flags.{env_is_true}
use k8s_sidecar_rs.Main.Version.{is_supported}
use k8s_sidecar_rs.Main.Settings.{
  Payloads, Settings, or_exit, ignore_gate, default_annotation, note_filter, non_empty,
  announce_switches, read_payload,
}
use k8s_sidecar_rs.Main.Run.{assemble, configure, setup}

ok-injective : {A E : Type 0} {a b : A} → ◌≡◌ {A = Result A E} (ok a) (ok b) → a ≡ b
ok-injective e = ground (arith)

module _ (H : Host) (J : Payloads H) (K : Kube H) where
  configure-code :
      (folder_annotation label target_folder : Text) (w : World H) (c : ℕ)
      → (configure H J K folder_annotation label target_folder w).0 ≡ err c
      → c ≡ 1
  unfolding configure assemble
  configure-code folder_annotation label target_folder w c e = ground arith

  -- Before `configure`, the setup only logs.
  setup-configure :
      (w : World H) (label target_folder : Text)
      → H.var (ascii "LABEL") ≡ some label
      → H.var (ascii "FOLDER") ≡ some target_folder
      → (a : Text) × (v : World H) × ((setup H J K w).0
          ≡ (configure H J K a label target_folder v).0)
  unfolding setup
  setup-configure w label target_folder l f =
      let (a, w₁) = default_annotation H (H.var (ascii "FOLDER_ANNOTATION")) w in
      let v = (note_filter H (non_empty (H.var (ascii "LABEL_VALUE"))) w₁).1 in
      (a, v, rw (l, f) refl)

  setup-missing_label : (w : World H) → H.var (ascii "LABEL") ≡ none → (setup H J K w).0 ≡ err 0
  unfolding setup
  setup-missing_label w l = rw l refl

  setup-missing_folder :
      (w : World H) (label : Text)
      → H.var (ascii "LABEL") ≡ some label
      → H.var (ascii "FOLDER") ≡ none
      → (setup H J K w).0 ≡ err 0
  unfolding setup
  setup-missing_folder w label l f = rw (l, f) refl

  -- The setup ends the program with code 0 exactly if LABEL or FOLDER is not set, whatever else is
  -- wrong, and every other failure of it ends with code 1.
  pub setup-code :
      (w : World H)
      → (((setup H J K w).0 ≡ err 0)
          ↔ ((H.var (ascii "LABEL") ≡ none) ⊎ (H.var (ascii "FOLDER") ≡ none)))
        × ((c : ℕ) → (setup H J K w).0 ≡ err c → c ≤ 1)
  setup-code w = elim (Option-cases (H.var (ascii "LABEL"))) [
    | inl l ↦ let e = setup-missing_label w l in ((λ h. inl l, λ h. e), λ c h. ground (arith))
    | inr (label, l) ↦ elim (Option-cases (H.var (ascii "FOLDER"))) [
      | inl f ↦
          let e = setup-missing_folder w label l f in ((λ h. inr f, λ h. e), λ c h. ground (arith))
      | inr (target_folder, f) ↦
          let (a, v, e) = setup-configure w label target_folder l f in
          let code = configure-code a label target_folder v in
          (
            (λ h. absurd (omega (arith, code 0 (sym e ∙ h))), λ h. ground (arith)),
            λ c h. omega (arith, code c (sym e ∙ h)),
          )
    ]
  ]

  ignore_gate-true :
      (client : K.Client) (w : World H)
      → (ignore_gate H K client w).0 ≡ true
      → (env_is_true H (ascii "IGNORE_ALREADY_PROCESSED") ≡ true)
        × ((version : Version) × ((server_version H K client w).0 ≡ ok version)
            × (is_supported version ≡ true))
  unfolding ignore_gate
  ignore_gate-true client w h =
      elim (Bool-cases (env_is_true H (ascii "IGNORE_ALREADY_PROCESSED"))) [
        | inr off ↦ absurd (ground (arith))
        | inl on ↦ elim (Result-cases (server_version H K client w).0) [
          | inl (version, e) ↦ (on, (version, e, ground (arith)))
          | inr (x, e) ↦ absurd (ground (arith))
        ]
      ]

  -- What is read off settings.
  abbrev Reads : Text → Text → Settings H.Json → Type 0
  Reads label target_folder s =
      (s.ctx.label ≡ label)
      × (s.ctx.target_folder ≡ target_folder)
      × ((client : K.Client) × (v : World H) × ((ignore_gate H K client v).0
            ≡ s.ignore_already_processed))

  assemble-ok :
      (folder_annotation label target_folder : Text) (payload : Option H.Json) (client : K.Client)
      (w : World H) (s : Settings H.Json)
      → (assemble H J K folder_annotation label target_folder payload client w).0 ≡ ok s
      → Reads label target_folder s
  unfolding assemble
  assemble-ok folder_annotation label target_folder payload client w s h =
      (ground arith, ground arith, (client, (announce_switches H w).1, ground arith))

  configure-ok :
      (folder_annotation label target_folder : Text) (w : World H) (s : Settings H.Json)
      → (configure H J K folder_annotation label target_folder w).0 ≡ ok s
      → Reads label target_folder s
  unfolding configure
  configure-ok folder_annotation label target_folder w s h =
      let (payload, w₁) = read_payload H J w in
      let (started, w₂) = or_exit H (init_client H K w₁).0 (init_client H K w₁).1 in
      elim (Result-cases started) [
        | inl (client, e) ↦
            assemble-ok folder_annotation label target_folder payload client w₂ s (ground arith)
        | inr (c, e) ↦ absurd (ground arith)
      ]

  -- Settings that the setup returns have the label and the folder of the environment, and skip
  -- versions that were processed already only if that was asked for and the API server has answered
  -- with a version that passes the gate.
  pub setup-ok :
      (w : World H) (s : Settings H.Json)
      → (setup H J K w).0 ≡ ok s
      → (H.var (ascii "LABEL") ≡ some s.ctx.label)
        × (H.var (ascii "FOLDER") ≡ some s.ctx.target_folder)
        × (s.ignore_already_processed ≡ true
            → (env_is_true H (ascii "IGNORE_ALREADY_PROCESSED") ≡ true)
              × ((client : K.Client) × (version : Version) × (v : World H) × ((server_version H K
                      client v).0
                    ≡ ok version)
                  × (is_supported version ≡ true)))
  setup-ok w s h = elim (Option-cases (H.var (ascii "LABEL"))) [
    | inl l ↦ absurd (ground (arith, setup-missing_label w l))
    | inr (label, l) ↦ elim (Option-cases (H.var (ascii "FOLDER"))) [
      | inl f ↦ absurd (ground (arith, setup-missing_folder w label l f))
      | inr (target_folder, f) ↦
          let (a, v, e) = setup-configure w label target_folder l f in
          let (same_label, same_folder, (client, u, gate)) =
            configure-ok a label target_folder v s (sym e ∙ h) in
          (
            l ∙ ap some (sym same_label),
            f ∙ ap some (sym same_folder),
            λ on.
                let (asked, (version, answer, passes)) = ignore_gate-true client u (gate ∙ on) in
                (asked, (client, version, u, answer, passes)),
          )
    ]
  ]
