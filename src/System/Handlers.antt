-- ===== src/System/Handlers.antt =====
-- A run of a whole handler is a sequence of steps of the system.
use mlab_ns.Base.{
  String, Option, none, some, List, [], ◌∷◌, ◌++◌, ◌≡◌, refl, ap, sym, subst, if_elim,
}
use mlab_ns.Base.Errors.{Result, ok, raise}
use mlab_ns.Model.{Tool}
use mlab_ns.Status.{Write, SliceStatus, update_sliver_tools_status}
use mlab_ns.Reports.{SliceInfo}
use mlab_ns.Page.{Reply, and_then-keeps, succeeded-keeps}
use mlab_ns.Store.{Store, Platform, Outcome, env_of, apply_write, apply_writes}
use mlab_ns.StatusHandler.{
  Monitoring, Configs, ConfigCache, Course, Update, apply_check, apply_update, check_families,
  check_tools, is_aborted, update_statuses, get, configs_of,
}
use mlab_ns.StatusHandler.Slices.{IsAbout, check_tool-IsAbout}
use mlab_ns.System.{State, Family, ipv4, ipv6, family_text, status, write, Reach, next}

append_nil : {A : Type 0} (xs : List A) → xs ++ [] ≡ xs
append_nil [] = refl
append_nil (x ∷ xs) = ap (λ ys. x ∷ ys) (append_nil xs)

module _ {F G : Type 0} (p : Platform F G) where
  abbrev pub at_rest : List (Write F) → Store F → State F
  at_rest pending s = record { store = s; pending = pending }

  -- The writes that are queued last reach the store.
  pub apply_writes-Reach :
      (o : Outcome F) (ws pending : List (Write F)) (s : Store F)
      → Reach p (at_rest (pending ++ ws) s)
      → Reach p (at_rest pending (apply_writes o ws s))
  unfolding apply_writes
  apply_writes-Reach o [] pending s r = subst (λ ws. Reach p (at_rest ws s)) (append_nil pending) r
  apply_writes-Reach o (w ∷ ws) pending s r =
      apply_writes-Reach o ws pending (apply_write o w s) (next r (write pending ws w o refl))

  module _ (m : Monitoring) (configs : Configs) (course : Course F G)
      (pending : List (Write F)) where
    -- The state with this store is reached.
    abbrev Reached : Store F → Type 0
    Reached s = Reach p (at_rest pending s)

    apply_update-Reached :
        (tool_id : String) (family : Family) (info : SliceInfo) (known : SliceStatus) (s : Store F)
        → info.address_family ≡ family_text family
        → Reached s
        → Reached (apply_update p m configs course tool_id family (info, known) s)
    unfolding apply_update
    apply_update-Reached tool_id family info known s e r =
        apply_writes-Reach (course.ends tool_id family) _ pending s (
          subst
            (λ text. Reach p (
              at_rest
                (pending
                  ++ update_sliver_tools_status (env_of p s) (course.now tool_id family) known
                      info.tool_id text (course.draw tool_id family))
                s))
            (sym e)
            (next r (
              status family info.tool_id known (course.now tool_id family)
                (course.draw tool_id family))))

    apply_check-Reached :
        (tool_id : String) (family : Family) (c : Result Update) (s : Store F)
        → IsAbout tool_id (family_text family) c
        → Reached s
        → Reached (apply_check p m configs course tool_id family c s).1
    apply_check-Reached tool_id family (raise e) s h r = r
    apply_check-Reached tool_id family (ok none) s h r = r
    apply_check-Reached tool_id family (ok (some (info, known))) s h r =
        apply_update-Reached tool_id family info known s h.1 r

    check_families-Reached :
        (tool : Option Tool) (tool_id : String) (families : List Family) (s : Store F)
        → Reached s
        → Reached (check_families p m configs course tool tool_id families s).1
    unfolding check_families
    check_families-Reached tool tool_id [] s r = r
    check_families-Reached tool tool_id (family ∷ families) s r =
        and_then-keeps Reached _ _
          (apply_check-Reached tool_id family _ s
            (check_tool-IsAbout m configs tool tool_id (family_text family)) r)
          (check_families-Reached tool tool_id families)

    check_tools-Reached :
        (tool_ids : List String) (s : Store F)
        → Reached s
        → Reached (check_tools p m configs course tool_ids s).1
    unfolding check_tools
    check_tools-Reached [] s r = r
    check_tools-Reached (tool_id ∷ tool_ids) s r =
        and_then-keeps Reached _ _ (check_families-Reached _ tool_id (ipv4 ∷ ipv6 ∷ []) s r)
          (check_tools-Reached tool_ids)

    update_statuses-Reached :
        (s : Store F) → Reached s → Reached (update_statuses p m course configs s).1
    unfolding update_statuses
    update_statuses-Reached s r =
        if_elim (λ (x : Result Reply × Store F). Reached x.1) (is_aborted m configs) _ _ (λ _. r)
          (λ _. succeeded-keeps Reached _ (check_tools-Reached _ s r))

  -- A run of the handler of the status, whatever monitoring answers and however it ends, even by an
  -- exception in the middle, is a sequence of steps of the system: from a state that is reached it
  -- leads to one that is reached, with the same writes of other handlers still under way.
  pub get-Reach :
      (m : Monitoring) (course : Course F G) (pending : List (Write F)) (cache : ConfigCache)
      (s : Store F)
      → Reach p (at_rest pending s)
      → Reach p (at_rest pending (get p m course cache s).1)
  unfolding get
  get-Reach m course pending cache s r =
      update_statuses-Reached m (configs_of m cache) course pending s r
