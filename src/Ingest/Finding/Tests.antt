-- ===== src/Ingest/Finding/Tests.antt =====
-- components/detection_finding_builder.py: the finding of an alert, and the theorem about it.
use cyber_security_alert_tri.Common.{◌≤◌, ◌≡◌, refl, length, [], some}
use cyber_security_alert_tri.Schema.{NormalizedAlert}
use cyber_security_alert_tri.Samples.{sample_alert}
use cyber_security_alert_tri.Ingest.Texts.{chars, take_chars}
use cyber_security_alert_tri.Ingest.Finding.{
  trunc, observables_of, seen_in, dedupe, build_detection_finding_slice,
}
use cyber_security_alert_tri.Ingest.Finding.Bounded.{
  Distinct, EvidenceWithin, build_detection_finding_slice-Bounded,
}

cut : trunc "abcdefgh" 5 ≡ "ab..."
unfolding trunc take_chars chars
cut = refl

abbrev own_address : NormalizedAlert
own_address = record sample_alert {
  network = some (record { src_ip = some "10.0.0.1"; dst_ip = some "10.0.0.1" });
}

-- The host, one address and the user.
three_observables : length (dedupe [] (observables_of own_address)) ≡ 3
unfolding dedupe observables_of seen_in
three_observables = refl

build_detection_finding_slice-Bounded_example :
    (chars (build_detection_finding_slice own_address).finding_info.title ≤ 512)
    × (chars (build_detection_finding_slice own_address).finding_info.desc ≤ 4000)
    × EvidenceWithin 8192 (build_detection_finding_slice own_address).evidences
    × (length (build_detection_finding_slice own_address).observables ≤ 9)
    × Distinct (build_detection_finding_slice own_address).observables
build_detection_finding_slice-Bounded_example = build_detection_finding_slice-Bounded own_address
