-- ===== src/References/Tests.antt =====
-- src/store/refs.rs: an index of two active cases and an archived one, on computed values.
use agent_first_mail.Prelude.{
  String, ◌≡◌, refl, Bool, true, false, List, [], ◌∷◌, Result, ok, err, OnOk,
}
use agent_first_mail.References.{
  CaseIndex, CaseFolder, build, has_active_reference, has_archived_reference,
}
use agent_first_mail.References.Build.{IsScan, build-IsScan}

abbrev folder_of : String → String → List String → CaseFolder
folder_of uid status ids = record {
  case_uid = uid;
  group = "work";
  path = uid;
  has_json = true;
  messages = ok (record { status = status; message_ids = ids });
}

abbrev active_folders : List CaseFolder
active_folders = folder_of "c1" "" ("m2" ∷ "m1" ∷ "m2" ∷ []) ∷ folder_of "c2" "" ("m1" ∷ []) ∷ []

abbrev archived_folders : List CaseFolder
archived_folders = folder_of "c3" "archived" ("m3" ∷ "m1" ∷ []) ∷ []

abbrev asked_active : Result CaseIndex → String → Bool
asked_active (ok index) id = has_active_reference index id
asked_active (err e) id = false

abbrev asked_archived : Result CaseIndex → String → Bool
asked_archived (ok index) id = has_archived_reference index id
asked_archived (err e) id = false

active_of_m2 : asked_active (build active_folders archived_folders) "m2" ≡ true
unfolding build has_active_reference
active_of_m2 = refl

archived_of_m3 : asked_archived (build active_folders archived_folders) "m3" ≡ true
unfolding build has_archived_reference
archived_of_m3 = refl

no_active_of_m3 : asked_active (build active_folders archived_folders) "m3" ≡ false
unfolding build has_active_reference
no_active_of_m3 = refl

abbrev code_of : Result CaseIndex → String
code_of (ok index) = ""
code_of (err e) = e.error_code

archived_folder_among_active : code_of (build archived_folders []) ≡ "case_metadata_invalid"
unfolding build
archived_folder_among_active = refl

build-IsScan_example : OnOk IsScan (build active_folders archived_folders)
build-IsScan_example = build-IsScan active_folders archived_folders
