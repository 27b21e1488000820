-- ===== src/Types/Snapshot/Degraded.antt =====
-- degraded_domains() of inc/types.hpp: when its text is empty.
use edge_healthd.Prelude.{
  ◌≡◌, refl, Bool, true, false, ◌&&◌, List, [], ◌∷◌, ◌++◌, Str, str, is_empty, if◌then◌else◌, arith,
}
use edge_healthd.Types.Enums.{Severity, severity_to_string}
use edge_healthd.Types.Snapshot.{
  DomainSeverities, domain_list, named_domains, is_quiet, degraded_from, degraded_domains,
}

abbrev pub all_quiet : List Severity → Bool
all_quiet [] = true
all_quiet (s ∷ ss) = is_quiet s && all_quiet ss

-- A text with an equals sign in it is not empty.
is_empty-entry : (s t : Str) → is_empty (s ++ str "=" ++ t) ≡ false
unfolding str
is_empty-entry [] t = refl
is_empty-entry (x ∷ s) t = refl

abbrev severities : List (Str × Severity) → List Severity
severities [] = []
severities ((name, sev) ∷ doms) = sev ∷ severities doms

is_empty-degraded_from :
    (out : Str) (doms : List (Str × Severity))
    → is_empty (degraded_from out doms) ≡ (is_empty out && all_quiet (severities doms))
unfolding degraded_from
is_empty-degraded_from out [] = ground arith
is_empty-degraded_from out ((name, sev) ∷ doms) =
    let entry = (if is_empty out then out else out ++ str ", ") ++ name in
    let next = if is_quiet sev then out else entry ++ str "=" ++ severity_to_string sev in
    ground (arith, is_empty-entry entry (severity_to_string sev), is_empty-degraded_from next doms)

-- Nothing is listed exactly when every domain is ok or unknown.
pub is_empty-degraded_domains :
    (d : DomainSeverities) → is_empty (degraded_domains d) ≡ all_quiet (domain_list d)
unfolding degraded_domains
is_empty-degraded_domains d = is_empty-degraded_from [] (named_domains d)
