-- ===== src/Executor/Delete/Failure.antt =====
-- The errors with which a deletion fails.
use machine_controller_manag.Base.{
  String, true, false, ◌≡◌, refl, sym, ◌⊎◌, inl, inr, Option, none, some, List, [], ◌∷◌,
  if◌then◌else◌, arith, Bool-cases,
}
use machine_controller_manag.Action.{
  Answer, answer, failure, Service, err, pure, raise, call, deref, ◌>>=◌, ◌>>◌,
}
use machine_controller_manag.Action.Laws.{bind_err, try_err, map_error_err}
use machine_controller_manag.Errors.{
  Err, Sentinel, errorf_v, err_not_found, err_multiple_found, is_error, is_not_found_error,
}
use machine_controller_manag.Cloud.{Server, status_deleted}
use machine_controller_manag.Executor.Defs.{Executor, Poller, spec_of}
use machine_controller_manag.Executor.Utils.{decode_provider_id, is_empty_string}
use machine_controller_manag.Executor.Wait.{wait_for_status}
use machine_controller_manag.Executor.Find.{get_machine_by_provider_id}
use machine_controller_manag.Executor.Delete.{
  delete_port, find_machine, release_port, wait_for_deletion, on_lost, delete_server,
  delete_machine,
}

-- The service never fails with an error that is or wraps a sentinel of the executor: those are
-- values of the program, which the service cannot know.
abbrev pub FailsOutside : {W A : Type 0} → Service W A → Type 0
FailsOutside {W} f =
    (v w : W) (e : Err) (target : Sentinel) → f v ≡ (failure e, w) → is_error e target ≡ false

-- The calls whose errors a deletion passes on.
pub record ErrorsOutside {W : Type 0} (ex : Executor W) : Type 0 where
  pub get_server : (id : String) → FailsOutside (ex.compute.get_server id)
  pub delete_server : (id : String) → FailsOutside (ex.compute.delete_server id)
  pub delete_port : (id : String) → FailsOutside (ex.network.delete_port id)

-- The error is no sentinel and wraps none.
abbrev IsOther : Err → Type 0
IsOther e = (target : Sentinel) → is_error e target ≡ false

errorf_v-IsOther :
    (format : String) (args : List String) (e : Err) → IsOther (errorf_v format args e)
unfolding is_error
errorf_v-IsOther format args e target = refl

call-IsOther :
    {W A : Type 0} (f : Service W A)
    → FailsOutside f
    → (v w : W) (e : Err) → call f v ≡ (err e, w)
    → IsOther e
call-IsOther {W} {A} f outside v w e h target = go (f v) refl
  where
    go : (r : Answer A × W) → f v ≡ r → is_error e target ≡ false
    go (answer a, u) p = absurd (ground arith)
    go (failure x, u) p = outside v w e target (ground arith)

module _ {W : Type 0} (ex : Executor W) (outside : ErrorsOutside ex) (name : String) where
  delete_port-IsOther : (v w : W) (e : Err) → delete_port ex name v ≡ (err e, w) → IsOther e
  unfolding delete_port
  delete_port-IsOther v w e h =
      elim (try_err (call (ex.network.port_id_from_name name))
        (λ x.
          if is_not_found_error x
          then pure tt
          else raise (errorf_v "error deleting port with name %q: %s" (name ∷ []) x))
        (λ id. call (ex.network.delete_port id)) v h) [
          | inl (id, u, p, rest) ↦
              call-IsOther (ex.network.delete_port id) (outside.delete_port id) u w e rest
          | inr (x, u, p, rest) ↦
              let wrapped : e ≡ errorf_v "error deleting port with name %q: %s" (name ∷ []) x =
                ground arith in
              rw wrapped (errorf_v-IsOther "error deleting port with name %q: %s" (name ∷ []) x)
        ]

  release_port-IsOther : (v w : W) (e : Err) → release_port ex name v ≡ (err e, w) → IsOther e
  unfolding release_port
  release_port-IsOther v w e h = elim (Bool-cases (is_empty_string (spec_of ex).subnet_id)) [
    | inl unset ↦ absurd (ground arith)
    | inr set ↦ delete_port-IsOther v w e (rw set at h)
  ]

  by_provider_id-one :
      (pid : String) (v w : W) (e : Err)
      → get_machine_by_provider_id ex name pid v ≡ (err e, w)
      → is_error e err_multiple_found ≡ false
  unfolding get_machine_by_provider_id is_error
  by_provider_id-one pid v w e h = go (ex.compute.get_server (decode_provider_id pid) v) refl
    where
      go :
          (r : Answer Server × W)
          → ex.compute.get_server (decode_provider_id pid) v ≡ r
          → is_error e err_multiple_found ≡ false
      go (answer s, u) p = ground arith
      go (failure x, u) p =
          let other = outside.get_server (decode_provider_id pid) v u x err_multiple_found p in
          ground arith

  module _ (P : Poller W) where
    delete_server-IsOther :
        (server : Server) (v w : W) (e : Err)
        → delete_server ex P name server v ≡ (err e, w)
        → IsOther e
    unfolding delete_server wait_for_deletion
    delete_server-IsOther server v w e h =
        elim (bind_err (call (ex.compute.delete_server server.id))
          (λ _. wait_for_deletion ex P server.id >> release_port ex name) v h) [
            | inl refused ↦
                call-IsOther (ex.compute.delete_server server.id) (outside.delete_server server.id)
                  v w e refused
            | inr (_, u, p, rest) ↦
                elim (bind_err (wait_for_deletion ex P server.id) (λ _. release_port ex name) u
                  rest) [
                    | inl late ↦
                        let (x, q, wrapped) =
                          map_error_err _
                            (wait_for_status ex P server.id [] (status_deleted ∷ []) 300) u late in
                        rw wrapped (errorf_v-IsOther _ _ x)
                    | inr (_, t, q, last) ↦ release_port-IsOther t w e last
                  ]
          ]

    from_found :
        (found : Option Server) (v w : W) (e : Err)
        → (deref found >>= delete_server ex P name) v ≡ (err e, w)
        → IsOther e
    from_found none v w e h = absurd (ground arith)
    from_found (some server) v w e h = delete_server-IsOther server v w e h

    -- A deletion never fails with `ErrNotFound`, and with `ErrMultipleFound` only if it was asked
    -- for without a provider ID, as long as no error of the cloud wraps these.
    pub delete_machine-err :
        (pid : String) (v w : W) (e : Err)
        → delete_machine ex P name pid v ≡ (err e, w)
        → (is_error e err_not_found ≡ false)
          × ((is_error e err_multiple_found ≡ false) ⊎ (is_empty_string (some pid) ≡ true))
    unfolding delete_machine on_lost find_machine
    delete_machine-err pid v w e h =
        elim (try_err (find_machine ex name pid) (on_lost ex P)
          (λ found. deref found >>= delete_server ex P name) v h) [
            | inl (found, u, p, rest) ↦
                let other = from_found found u w e rest in
                (other err_not_found, inl (other err_multiple_found))
            | inr (x, u, p, rest) ↦ elim (Bool-cases (is_empty_string (some pid))) [
              | inl blank ↦ (ground arith, inr blank)
              | inr named ↦
                  let same : x ≡ e = ground arith in
                  let failed =
                    bind_err (get_machine_by_provider_id ex name pid) (λ server. pure (some server))
                      v (rw named at p) in
                  (
                    ground arith,
                    inl (
                        rw (sym same) (elim failed [
                          | inl lost ↦ by_provider_id-one pid v u x lost
                          | inr (server, t, q, done) ↦ absurd (ground arith)
                        ])),
                  )
            ]
          ]
