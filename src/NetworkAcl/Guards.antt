-- ===== src/NetworkAcl/Guards.antt =====
-- When the text of an ACL is replaced.
use hermes_managed_network.Prelude.{
  String, ◌≡◌, ◌≢◌, refl, ap, Bool, true, Option, none, some, ◌==◌, ◌⊎◌, inl, inr, Bool-cases,
  eq→path,
}
use mathlib.Core.Option.{some-injective}
use hermes_managed_network.Json.{ℤ, is_zero}
use hermes_managed_network.Text.{strip_text}
use hermes_managed_network.Schema.{ApprovalRequest, Store, Env, Result, ok, str_or}
use hermes_managed_network.ApprovalTable.{load_approval_request}
use hermes_managed_network.Executor.{Completed}
use hermes_managed_network.NetworkAcl.{
  Disk, Host, World, Run, ran, failed, timed_out, file, Entry, absent, directory, text_or_empty,
  text_of_file, exists, write, applies, current_of, proposed_of, expected_of, outcome_of_run,
  run_step, audit_applied, after_verify, after_reload, reload_acl, write_acl, apply_texts,
  dispatch_acl, dispatch_approved_network_acl_apply,
}

-- the exit of a command that did not fail: it was empty, or it ended with 0
pub data Clean (exit : Option ℤ) : Type 0 where
  skipped : exit ≡ none → Clean exit
  zero_exit : (code : ℤ) → exit ≡ some code → is_zero code ≡ true → Clean exit

is_file : (e : Entry) (text : String) → text_of_file e ≡ some text → e ≡ file text
is_file absent text h = cc
is_file directory text h = cc
is_file (file t) text h = ap file (some-injective t text h)

module _ (env : Env) (host : Host) where
  -- one run of a command of the approval in the folder of the current ACL
  abbrev command : String → ApprovalRequest → String
  command key approval = strip_text (str_or env key approval.details "")

  abbrev folder : ApprovalRequest → String
  folder approval = host.parent (current_of env host approval)

  -- the approval, the two texts and the digest that let the text be replaced
  pub record Permitted (w : World) (o : Option ApprovalRequest) (approval : ApprovalRequest)
      (old_text new_text : String) : Type 0 where
    pub there : o ≡ some approval
    pub asked : applies approval ≡ true
    pub new : w.disk (proposed_of env host approval) ≡ file new_text
    pub old : text_or_empty (w.disk (current_of env host approval)) ≡ some old_text
    pub fresh :
        (expected_of env host approval ≡ "")
        ⊎ (expected_of env host approval ≡ host.sha256 old_text)

  -- both commands ran clean from the files `d`, and the row of the success is written
  pub record Finished (s : Store) (approval : ApprovalRequest) (old_text new_text : String)
      (d : Disk) (w : World) : Type 0 where
    pub between : Disk
    pub reload : Option ℤ
    pub verify : Option ℤ
    pub reloaded :
        run_step env host "Headscale reload 失败: " d
          (command "reload_command" approval)
          (folder approval)
        ≡ (between, ran reload)
    pub verified :
        run_step env host "Headscale ACL verify 失败: " between
          (command "verify_command" approval)
          (folder approval)
        ≡ (w.disk, ran verify)
    pub reload_clean : Clean reload
    pub verify_clean : Clean verify
    pub logged : w.store ≡ audit_applied env host s approval old_text new_text reload verify

  -- the two ways in which the apply goes
  pub data Applying (w : World) (o : Option ApprovalRequest) (r : World × Result Bool)
      : Type 0 where
    refused : r.0.disk ≡ w.disk → r.1 ≢ ok true → Applying w o r
    replaced :
        (approval : ApprovalRequest) (old_text new_text : String) (made : Disk)
        → Permitted w o approval old_text new_text
        → host.make_dirs w.disk (folder approval) ≡ some made
        → (r.1 ≡ ok true
            → Finished w.store approval old_text new_text
                (write (current_of env host approval) new_text made)
                r.0)
        → Applying w o r

  Clean-of_run :
      (label : String) (x : Disk × Option Completed) (d : Disk) (exit : Option ℤ)
      → outcome_of_run env host label x ≡ (d, ran exit)
      → Clean exit
  unfolding outcome_of_run
  Clean-of_run label (d', none) d exit h = cc
  Clean-of_run label (d', some c) d exit h = elim (Bool-cases (is_zero c.returncode)) [
    | inl e ↦ zero_exit c.returncode (cc (rw e at h)) e
    | inr e ↦ cc (rw e at h)
  ]

  Clean-of_step :
      (label : String) (d : Disk) (text cwd : String) (d' : Disk) (exit : Option ℤ)
      → run_step env host label d text cwd ≡ (d', ran exit)
      → Clean exit
  unfolding run_step
  Clean-of_step label d text cwd d' exit h = elim (Bool-cases (text == "")) [
    | inl e ↦ skipped (cc (rw e at h))
    | inr e ↦ Clean-of_run label (host.run d text cwd) d' exit (rw e at h)
  ]

  module _ (s : Store) (approval : ApprovalRequest) (old_text new_text : String) where
    -- what a success says of the verify command
    verified_by :
        (reload : Option ℤ) (x : Disk × Run)
        → (after_verify env host s approval old_text new_text reload x).1 ≡ ok true
        → (verify : Option ℤ) × (x
            ≡ ((after_verify env host s approval old_text new_text reload x).0.disk, ran verify))
          × ((after_verify env host s approval old_text new_text reload x).0.store
              ≡ audit_applied env host s approval old_text new_text reload verify)
    unfolding after_verify
    verified_by reload (d, timed_out) h = cc
    verified_by reload (d, failed code error) h = cc
    verified_by reload (d, ran verify) h = (verify, refl, refl)

    Finished-by :
        (d : Disk) (x : Disk × Run)
        → run_step env host "Headscale reload 失败: " d
            (command "reload_command" approval)
            (folder approval)
          ≡ x
        → (after_reload env host s approval old_text new_text x).1 ≡ ok true
        → Finished s approval old_text new_text d
            (after_reload env host s approval old_text new_text x).0
    unfolding after_reload
    Finished-by d (d', timed_out) e h = cc
    Finished-by d (d', failed code error) e h = cc
    Finished-by d (d', ran reload) e h =
        let step =
          run_step env host "Headscale ACL verify 失败: " d' (command "verify_command" approval)
            (folder approval) in
        let (verify, verified, logged) = verified_by reload step h in
        record {
          between = d';
          reload = reload;
          verify = verify;
          reloaded = e;
          verified = verified;
          reload_clean = Clean-of_step "Headscale reload 失败: " d _ _ d' reload e;
          verify_clean = Clean-of_step "Headscale ACL verify 失败: " d' _ _ _ verify verified;
          logged = logged;
        }

  module _ (w : World) (approval : ApprovalRequest) (o : Option ApprovalRequest)
      (there : o ≡ some approval) where
    of_made :
        (old_text new_text : String)
        → Permitted w o approval old_text new_text
        → (m : Option Disk) → host.make_dirs w.disk (folder approval) ≡ m
        → Applying w o (write_acl env host w approval old_text new_text m)
    unfolding write_acl reload_acl
    of_made old_text new_text may none e = refused refl (λ h. cc)
    of_made old_text new_text may (some made) e = replaced approval old_text new_text made may e (
        Finished-by w.store approval old_text new_text
          (write (current_of env host approval) new_text made) _ refl)

    of_texts :
        applies approval ≡ true
        → (a b : Option String) → text_or_empty (w.disk (current_of env host approval)) ≡ a
        → text_of_file (w.disk (proposed_of env host approval)) ≡ b
        → Applying w o (apply_texts env host w approval a b)
    unfolding apply_texts
    of_texts asked none b ea eb = refused refl (λ h. cc)
    of_texts asked (some old_text) none ea eb = refused refl (λ h. cc)
    of_texts asked (some old_text) (some new_text) ea eb =
        let permit =
          λ (fresh : (expected_of env host approval ≡ "")
              ⊎ (expected_of env host approval ≡ host.sha256 old_text)).
            of_made old_text new_text
              (record {
                there = there;
                asked = asked;
                new = is_file (w.disk (proposed_of env host approval)) new_text eb;
                old = ea;
                fresh = fresh;
              })
              _ refl in
        elim (Bool-cases (expected_of env host approval == "")) [
          | inl e ↦ rw e (permit (inl (eq→path _ "" e)))
          | inr e ↦ elim (Bool-cases (expected_of env host approval == host.sha256 old_text)) [
            | inl k ↦ rw (e, k) (permit (inr (eq→path _ _ k)))
            | inr k ↦ rw (e, k) (refused refl (λ h. cc))
          ]
        ]

  of_loaded : (w : World) (o : Option ApprovalRequest) → Applying w o (dispatch_acl env host w o)
  unfolding dispatch_acl
  of_loaded w none = refused refl (λ h. cc)
  of_loaded w (some approval) = elim (Bool-cases (applies approval)) [
    | inr e ↦ rw e (refused refl (λ h. cc))
    | inl e ↦ elim (Bool-cases (exists (w.disk (proposed_of env host approval)))) [
      | inr k ↦ rw (e, k) (refused refl (λ h. cc))
      | inl k ↦ rw (e, k) (of_texts w approval (some approval) refl e _ _ refl refl)
    ]
  ]

  -- The apply of an ACL leaves every file as it was and does not answer true, or: the approval is
  -- stored, approved and for this action, the proposed file was read, the text it replaces is the one
  -- of the current file, with the digest that the approval names if it names one, and the folder was
  -- made. If it then answers true, the reload and the verify command ran, each empty or ending with 0,
  -- the first on the files with the new text written and the second on what the first left, the files
  -- are those that the second left, and the audit row of the success is the one change of the store.
  pub dispatch-Applying :
      (w : World) (approval_id : String)
      → Applying w
          (load_approval_request w.store approval_id)
          (dispatch_approved_network_acl_apply env host w approval_id)
  unfolding dispatch_approved_network_acl_apply
  dispatch-Applying w approval_id = of_loaded w (load_approval_request w.store approval_id)
