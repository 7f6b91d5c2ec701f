-- ===== src/Autoscaler/Laws.antt =====
-- When the controller resets the replicas, and what it leaves.
use cluster_api_runtime_exte.Prelude.{
  ℤ, leb_int, ◌≡◌, refl, sym, ap, ◌∙◌, Bool, true, false, not, ◌&&◌, ◌||◌, Option, none, some, Text,
  arith, if◌then◌else◌, Bool-cases, inl, inr,
}
use cluster_api_runtime_exte.Autoscaler.{
  MachineDeployment, Reply, found, not_found, get_failed, Number, Size, size, missing, invalid,
  nothing, min_replicas_from_annotations, max_replicas_from_annotations, updated_with, reset,
  enforce, with_min, with_replicas, with_found, reconcile,
}

-- The sizes are an interval, and the replicas are not in it.
abbrev pub is_outside : Option ℤ → Size → Size → Bool
is_outside none lo hi = false
is_outside (some r) (size lo) (size hi) = leb_int lo hi && not (leb_int lo r && leb_int r hi)
is_outside (some r) (size lo) missing = false
is_outside (some r) (size lo) (invalid e) = false
is_outside (some r) missing hi = false
is_outside (some r) (invalid e) hi = false

-- The first size that is no integer, if the code comes to read it.
abbrev pub has_bad_size : Option ℤ → Size → Size → Bool
has_bad_size none lo hi = false
has_bad_size (some r) (invalid e) hi = true
has_bad_size (some r) missing hi = false
has_bad_size (some r) (size lo) (invalid e) = true
has_bad_size (some r) (size lo) missing = false
has_bad_size (some r) (size lo) (size hi) = false

abbrev pub is_error : Option Text → Bool
is_error none = false
is_error (some e) = true

abbrev pub without_replicas : MachineDeployment → MachineDeployment
without_replicas md = record md { replicas = none }

replicas_of : Option MachineDeployment → Option ℤ
replicas_of none = none
replicas_of (some md) = md.replicas

module _ (atoi : Text → Number) (update_error : MachineDeployment → Option Text) where
  updated_with-updated :
      (md : MachineDeployment) (e : Option Text)
      → (updated_with atoi update_error md e).updated ≡ some md
  unfolding updated_with
  updated_with-updated md none = refl
  updated_with-updated md (some e) = refl

  updated_with-error :
      (md : MachineDeployment) (e : Option Text)
      → is_error (updated_with atoi update_error md e).error ≡ is_error e
  unfolding updated_with
  updated_with-error md none = refl
  updated_with-error md (some e) = refl

  enforce_lem :
      (md : MachineDeployment) (r lo hi : ℤ)
      → ((enforce atoi update_error md r lo hi).updated
          ≡ (if is_outside (some r) (size lo) (size hi) then some (without_replicas md) else none))
        × (is_error (enforce atoi update_error md r lo hi).error ≡ (
            is_outside (some r) (size lo) (size hi)
            && is_error (update_error (without_replicas md))))
  unfolding enforce reset
  enforce_lem md r lo hi =
      let md' = without_replicas md in
      let u = updated_with-updated md' (update_error md') in
      let e = updated_with-error md' (update_error md') in ground arith

  with_min_lem :
      (md : MachineDeployment) (r lo : ℤ) (hi : Size)
      → ((with_min atoi update_error md r lo hi).updated
          ≡ (if is_outside (some r) (size lo) hi then some (without_replicas md) else none))
        × (is_error (with_min atoi update_error md r lo hi).error ≡ (
            has_bad_size (some r) (size lo) hi
            || (is_outside (some r) (size lo) hi && is_error (update_error (without_replicas md)))))
  unfolding with_min
  with_min_lem md r lo (size hi) = enforce_lem md r lo hi
  with_min_lem md r lo missing = (refl, refl)
  with_min_lem md r lo (invalid e) = (refl, refl)

  with_replicas_lem :
      (md : MachineDeployment) (r : ℤ) (lo : Size)
      → let hi = max_replicas_from_annotations atoi update_error md.annotations in
        ((with_replicas atoi update_error md r lo).updated
          ≡ (if is_outside (some r) lo hi then some (without_replicas md) else none))
        × (is_error (with_replicas atoi update_error md r lo).error ≡ (
            has_bad_size (some r) lo hi
            || (is_outside (some r) lo hi && is_error (update_error (without_replicas md)))))
  unfolding with_replicas
  with_replicas_lem md r (size lo) =
      with_min_lem md r lo (max_replicas_from_annotations atoi update_error md.annotations)
  with_replicas_lem md r missing = (refl, refl)
  with_replicas_lem md r (invalid e) = (refl, refl)

  with_found_lem :
      (md : MachineDeployment) (r : Option ℤ)
      → let lo = min_replicas_from_annotations atoi update_error md.annotations in
        let hi = max_replicas_from_annotations atoi update_error md.annotations in
        ((with_found atoi update_error md r).updated
          ≡ (if is_outside r lo hi then some (without_replicas md) else none))
        × (is_error (with_found atoi update_error md r).error ≡ (
            has_bad_size r lo hi
            || (is_outside r lo hi && is_error (update_error (without_replicas md)))))
  unfolding with_found
  with_found_lem md none = (refl, refl)
  with_found_lem md (some r) =
      with_replicas_lem md r (min_replicas_from_annotations atoi update_error md.annotations)

  -- Of a MachineDeployment that is found, the controller updates one without replicas exactly if
  -- the two sizes are there and are an interval and the replicas are set and lie outside; it returns
  -- an error exactly if the replicas are set and a size that it reads is no integer, or if it
  -- updates and the update fails.
  pub reconcile_lem :
      (md : MachineDeployment)
      → let lo = min_replicas_from_annotations atoi update_error md.annotations in
        let hi = max_replicas_from_annotations atoi update_error md.annotations in
        let result = reconcile atoi update_error (found md) in
        (result.updated
          ≡ (if is_outside md.replicas lo hi then some (without_replicas md) else none))
        × (is_error result.error ≡ (
            has_bad_size md.replicas lo hi
            || (is_outside md.replicas lo hi && is_error (update_error (without_replicas md)))))
  unfolding reconcile
  reconcile_lem md = with_found_lem md md.replicas

  -- What the controller has updated, it leaves alone: reconciled again, it is not updated and there
  -- is no error.
  pub reconcile_settled :
      (reply : Reply) (md : MachineDeployment)
      → (reconcile atoi update_error reply).updated ≡ some md
      → reconcile atoi update_error (found md) ≡ nothing
  unfolding reconcile with_found replicas_of
  reconcile_settled not_found md h = absurd (cc h)
  reconcile_settled (get_failed e) md h = absurd (cc h)
  reconcile_settled (found md₀) md h =
      let made = (with_found_lem md₀ md₀.replicas).0 in
      let lo = min_replicas_from_annotations atoi update_error md₀.annotations in
      let hi = max_replicas_from_annotations atoi update_error md₀.annotations in
      elim (Bool-cases (is_outside md₀.replicas lo hi)) [
        | inl e ↦
            let same : some (without_replicas md₀) ≡ some md = sym (rw e at made) ∙ h in
            let gone : md.replicas ≡ none = sym (ap replicas_of same) in rw gone refl
        | inr e ↦ let same : none ≡ some md = sym (rw e at made) ∙ h in absurd (cc same)
      ]
