-- ===== src/Access/Tests/Request.antt =====
-- A request of one office, its assignee, and its certificate.
use frappe_erp_next.Prelude.{◌≡◌, ◌↔◌, refl, true, false, ◌&&◌, ◌||◌, none, some, [], ◌∷◌, ◌==◌}
use frappe_erp_next.Access.Request.{
  allowed, denied, Request, File, Realm, company_access, request_permission, request_query,
  file_permission,
}
use frappe_erp_next.Access.Request.Listed.{request_query_iff}

abbrev leave : Request
leave = record { name = "R1"; company = "North"; owner = "ann"; workflow_instance = "I1" }

-- Ann and Bob work in the office; a task of the request is Bob's.
abbrev realm : Realm
realm = record {
  configured_service_user = none;
  service_user = λ c. none;
  roles = λ u. "Employee" ∷ [];
  companies = "North" ∷ "South" ∷ [];
  company_permission = λ u c. false;
  office_role = λ u c. false;
  active_employee = λ u c. (c == "North") && ((u == "ann") || (u == "bob"));
  reads_company = λ u c. false;
  assigned_to = λ u i. (u == "bob") && (i == "I1");
  request = λ n. leave;
  running_of_task =
      λ n. record { reference_doctype = "ASOUD Workflow Request"; reference_name = "R1" };
  directive_file = λ f u k. none;
  directive_record = λ i u k. none;
  entry_permission = λ i u k. denied;
}

abbrev certificate : File
certificate = record {
  attached_to_doctype = "ASOUD Workflow Request";
  attached_to_name = "R1";
  attached_to_field = "certificate";
  is_private = true;
}

assignee_reads : request_permission realm leave "bob" (some "read") ≡ allowed
unfolding request_permission company_access
assignee_reads = refl

assignee_no_certificate : file_permission realm certificate "bob" none ≡ denied
unfolding file_permission request_permission company_access
assignee_no_certificate = refl

owner_certificate : file_permission realm certificate "ann" none ≡ allowed
unfolding file_permission request_permission company_access
owner_certificate = refl

request_query_iff_example :
    (request_query realm "bob" leave ≡ true)
    ↔ (request_permission realm leave "bob" (some "read") ≡ allowed)
request_query_iff_example = request_query_iff realm leave "bob" refl refl refl
