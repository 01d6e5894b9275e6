-- ===== src/Probe/Tests.antt =====
-- The index at small trees in which every name collides.
use hyperdir.Base.{◌≡◌, refl, some, ok, ◌⊎◌}
use hyperdir.Probe.{probe_lookup}
use hyperdir.Probe.Slots.{update}
use hyperdir.Probe.Lookup.{probe_lookup-held}
use hyperdir.Probe.Upsert.{Bound, Exhausted, probe_upsert-Models}
use hyperdir.Probe.Remove.{Removed, probe_delete-Models}
use hyperdir.Probe.Function.{
  function_map, function_map-IsMap, same_home, alpha, beta, alpha_entry, beta_entry, unbound,
  single, alpha-named, beta-named, same_home_small, single-Models,
}

probe_lookup-held_example :
    probe_lookup function_map same_home single alpha 5 ≡ ok (some (5, alpha_entry))
probe_lookup-held_example =
    probe_lookup-held function_map same_home function_map-IsMap single single-Models.table alpha 5
      alpha_entry (same_home_small alpha) refl alpha-named

probe_upsert-Models_example :
    Bound function_map same_home function_map-IsMap single
      (update unbound alpha (some alpha_entry))
      beta
      beta_entry
      single-Models
      beta-named
      (same_home_small beta)
    ⊎ Exhausted function_map same_home function_map-IsMap single
        (update unbound alpha (some alpha_entry))
        beta
        beta_entry
        single-Models
        beta-named
        (same_home_small beta)
probe_upsert-Models_example =
    probe_upsert-Models function_map same_home function_map-IsMap single
      (update unbound alpha (some alpha_entry)) beta beta_entry single-Models beta-named
      (same_home_small beta)

probe_delete-Models_example :
    Removed function_map same_home function_map-IsMap single
      (update unbound alpha (some alpha_entry))
      alpha
      single-Models
      (same_home_small alpha)
probe_delete-Models_example =
    probe_delete-Models function_map same_home function_map-IsMap single
      (update unbound alpha (some alpha_entry)) alpha single-Models (same_home_small alpha)
