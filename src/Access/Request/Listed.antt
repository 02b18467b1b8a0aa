-- ===== src/Access/Request/Listed.antt =====
-- The lists and the documents of asoud_erp/services/request_access.py agree, and the certificates.
use frappe_erp_next.Prelude.{
  String, ◌≡◌, ◌↔◌, refl, ◌⊎◌, inl, inr, Bool, true, false, not, ◌||◌, Option, none, some, List, [],
  ◌∷◌, ◌==◌, eq_iff, arith, if◌then◌else◌, contains, Has, is_empty, Bool-cases, contains-select,
}
use frappe_erp_next.Access.Request.{
  allowed, Request, File, Realm, is_user, has_any, manager_roles, company_access, is_assignee,
  request_permission, allowed_companies, request_query, certificate_permission, permission_of,
  grants, request_file, file_permission,
}

is_empty-contains : (xs : List String) (a : String) → Has xs a → is_empty xs ≡ false
is_empty-contains [] a h = cc
is_empty-contains (x ∷ xs) a h = refl

company_access-Guest :
    (r : Realm) (company user : String)
    → (user == "Guest") ≡ true
    → company_access r company user ≡ false
unfolding company_access
company_access-Guest r company user h = rw h

module _ (r : Realm) (q : Request) (user : String) where
  listed_company :
      Has r.companies q.company
      → contains (allowed_companies r user) q.company ≡ company_access r q.company user
  listed_company c = rw (contains-select (λ x. company_access r x user) r.companies q.company, c)

  listed_task :
      r.assigned_to user "" ≡ false → r.assigned_to user q.workflow_instance ≡ is_assignee r user q
  listed_task t = elim (Bool-cases (q.workflow_instance == "")) [
    | inl e ↦ let none_set = (eq_iff q.workflow_instance "").0 e in rw (none_set, t)
    | inr n ↦ rw n
  ]

  query_true :
      company_access r q.company user ≡ true
      → Has r.companies q.company
      → request_query r user q ≡ (
          if has_any manager_roles (r.roles user)
          then true
          else (q.owner == user) || r.assigned_to user q.workflow_instance)
  unfolding request_query
  query_true a c =
      let here : contains (allowed_companies r user) q.company ≡ true = rw (listed_company c) a in
      let some_left = is_empty-contains (allowed_companies r user) q.company here in
      elim (Bool-cases (user == "Guest")) [
        | inl g ↦ cc (company_access-Guest r q.company user g, a)
        | inr g ↦ rw (g, some_left, here) (ground arith)
      ]

  query_false :
      company_access r q.company user ≡ false
      → Has r.companies q.company
      → request_query r user q ≡ false
  unfolding request_query
  query_false a c =
      let here : contains (allowed_companies r user) q.company ≡ false = rw (listed_company c) a in
      rw here (ground arith)

-- A user who is not the service user lists exactly the requests that he may read: of requests of a
-- company that exists, where no task without an instance is assigned to the user.
pub request_query_iff :
    (r : Realm) (q : Request) (user : String)
    → is_user user r.configured_service_user ≡ false
    → Has r.companies q.company
    → r.assigned_to user "" ≡ false
    → (request_query r user q ≡ true) ↔ (request_permission r q user (some "read") ≡ allowed)
unfolding request_query request_permission
request_query_iff r q user s c t = elim (Bool-cases (company_access r q.company user)) [
  | inl a ↦
      rw (query_true r q user a c, s, a, listed_task r q user t)
        (λ h. ground arith, λ h. ground arith)
  | inr a ↦ rw (query_false r q user a c, s, a) (λ h. cc, λ h. cc)
]

permission_of-allowed : (b : Bool) → permission_of b ≡ allowed → b ≡ true
permission_of-allowed true h = refl
permission_of-allowed false h = cc

request_file-certificate :
    (r : Realm) (f : File) (user : String) (kind : Option String)
    → (f.attached_to_field == "certificate") ≡ true
    → request_file r f user kind ≡ allowed
    → (f.is_private ≡ true) × (certificate_permission r (r.request f.attached_to_name) user ≡ true)
request_file-certificate r f user kind w h =
    elim (Bool-cases (not f.is_private || (f.attached_to_name == ""))) [
      | inl e ↦ cc (rw e at h)
      | inr e ↦
          elim (Bool-cases
            (grants (request_permission r (r.request f.attached_to_name) user kind))) [
              | inl a ↦ (
                ground arith,
                permission_of-allowed (certificate_permission r (r.request f.attached_to_name) user)
                    (rw (e, a, w) at h),
              )
              | inr n ↦
                  let granted : request_permission r (r.request f.attached_to_name) user kind
                      ≡ allowed =
                    rw (e, n) at h in
                  cc (rw granted at n)
            ]
    ]

certificate_permission-cases :
    (r : Realm) (q : Request) (user : String)
    → certificate_permission r q user ≡ true
    → (company_access r q.company user ≡ true)
      × ((user ≡ q.owner) ⊎ (has_any manager_roles (r.roles user) ≡ true))
certificate_permission-cases r q user h = elim (Bool-cases (user == q.owner)) [
  | inl e ↦ (ground arith, inl ((eq_iff user q.owner).0 e))
  | inr n ↦ (ground arith, inr (ground arith))
]

-- The certificate of a request is downloaded by its owner and by HR and System Managers only, with
-- access to the company: not by a user who may read the request as the assignee of a stage.
pub file_permission-certificate :
    (r : Realm) (f : File) (user : String) (kind : Option String)
    → r.directive_file f user kind ≡ none
    → f.attached_to_doctype ≡ "ASOUD Workflow Request"
    → f.attached_to_field ≡ "certificate"
    → file_permission r f user kind ≡ allowed
    → (f.is_private ≡ true)
      × (company_access r (r.request f.attached_to_name).company user ≡ true)
      × ((user ≡ (r.request f.attached_to_name).owner)
          ⊎ (has_any manager_roles (r.roles user) ≡ true))
unfolding file_permission
file_permission-certificate r f user kind d t w h =
    let (private, may) = request_file-certificate r f user kind (rw w) (rw (d, t) at h) in
    let (inside, who) = certificate_permission-cases r (r.request f.attached_to_name) user may in
    (private, inside, who)
