-- ===== src/Lib.antt =====
-- Verification of the workflow engine and the request rules of asoud_erp, an application on the
-- Frappe framework for offices: a designer saves workflows as stages and transitions, activation
-- checks a saved design, the engine runs instances of it, and requests are instances with a form, a
-- status shown to users, and a native document that is created once they are approved. System
-- actions run in the background with receipts and retries; rules of access say who sees what; dates
-- are shown in the Solar Hijri calendar; HR issues salary change orders, and leave is counted by the
-- hour.
--
-- The parts and their files:
-- - Workflow/Design.antt, Workflow/Activation.antt and Workflow/Graph*: services/workflow_contract.py.
--   `valid_saved_stage` and `valid_saved_routes` are `_validate_saved_stage` and
--   `_validate_saved_routes`, `activation_requirements` has its name; Graph.antt has its two loops,
--   the stack from the start (`walk`) and the growing set from the ends (`grow`). `IsReady` of
--   Workflow/Activation/Ready.antt says what a design must be, without the searches.
-- - Workflow/Condition.antt: services/workflow_condition.py. Workflow/History.antt:
--   services/workflow_history.py.
-- - Workflow/Runtime*: api/v1/workflow_runtime.py, with services/workflow_assignment.py in
--   Assign.antt. `State` has the rows of one instance as a record (`Engine`) that every operation
--   takes and returns; Route, Lookup, Activate, Complete and Deadlines have the functions
--   `_next_stage`, `_system_route`, `_latest_form_value`, `_task_deadlines`, `_completed_task_rows`,
--   `_activate_stage`, `_run_system_action`, `complete_workflow_task` and
--   `process_workflow_deadlines`. Progress relates activation to the routes of the engine; Cycle and
--   Depth are about the recursion of `_activate_stage`; Duty and Permit are about decisions on tasks.
-- - Workflow/Runtime/Launch*: `start_workflow_instance` of the same file, with its guards in order
--   (`prepare`), the instance that it finds or reuses, and the one that it makes, over all instances
--   (`Store`). Workflow/Runtime/Draft*: `save_workflow_task_draft` and
--   `_validate_response_attachments`.
-- - Workflow/Policy*: the deadline, the assignment and the stage Condition of
--   services/workflow_stage_policy.py, each with what the engine makes of a saved one.
-- - Workflow/Response*: `project_request_rows` and `validate_request_bounds` of
--   services/workflow_step_validation.py.
-- - Workflow/Automatic*: services/automatic_action_policy.py, less its calculations; Receipt* has the
--   states of an execution of services/automatic_action_runtime.py (`schedule`, `run`, `dispatch`).
-- - Request/Status.antt, Request/Execution.antt and Request/Void.antt: services/request_status.py,
--   services/request_execution.py and the pure rules of services/request_void.py.
-- - Workflow/Start.antt: services/workflow_start_policy.py, less `normalize_settings`.
-- - Access/Delegation.antt: services/delegation.py. Access/Admin.antt: the pure rules of
--   services/system_admin.py. Access/Request*: services/request_access.py and the rule of
--   services/certificate_access.py, with the condition that `request_query` states on a row.
-- - Directive/Paging.antt: services/directive_paging.py.
-- - Form/Period.antt and Form/Clock.antt: services/form_execution/period.py, with the dates that
--   `date.fromisoformat` gives back unchanged as an argument.
-- - Form/Values.antt, Form/Rows.antt, Form/Visible.antt and Form/Response*: `normalize_form_response`
--   of services/workflow_response.py with its rows, its visibility and the values of each type;
--   Form/Response/Typed.antt has the typing of responses as a judgment of its own (`Typed`).
-- - Personnel/Order.antt and Personnel/Salary*: services/salary_change_order_workflow.py and, in
--   Review, Apply and Edit, the calls of api/v1/salary_change_orders.py that change an order that
--   exists. Edit has `save_salary_change_order` with the name of an order; what that call reads from
--   its other arguments, the employee, the payroll and the template is the record `Edited`.
--   `OrderEntry` is the row that stores an order; Events has the calls as events in any sequence
--   (`run`), Personnel/Lifecycle.antt the abstract life of an order (`Move`, `Reaches`) that they
--   implement.
-- - Leave/Hours.antt: the duration of an hourly leave of services/leave_hours.py.
-- - Calendar*: services/jalali.py, less `jalali_fiscal_period`.
-- - Prelude* has the shared tests, lists, integers and results; Python.antt the decoded JSON values
--   and what the code uses of Python's strings. The paths above are below asoud_erp/.
--
-- What raises in the source is an `err` of a result type, with the errors that the callers tell
-- apart; Frappe rolls the transaction back then, so no state stands beside an error, but for the
-- submission of an order, which rolls back to a savepoint itself. JSON columns are decoded when
-- they are read and encoded when they are written, without loss, and a text that cannot be decoded
-- is `none`. The model has whole numbers only: a value with a fraction, which JSON and the number
-- fields of a form can have, is outside of it. Times are whole minutes, and whole seconds in the receipts of automatic actions. Case
-- folding, `int`, `Decimal` and the text of a container are fields of the record `Python`.
--
-- Bounds: the fuel of `walk` and `grow` counts rounds. A round of `walk` but the last pops an entry
-- of the stack, and there is one entry for the start and at most one for each edge: the fuel is two
-- more than the edges. A round of `grow` but the last adds the source of an edge that the set
-- lacked: the fuel is one more than the edges. `activate` counts the stages entered by one call. It
-- suffices where the automatic stages have a rank that every edge lowers; nothing in the program
-- ensures that. The fuel of `normalize_form_response` counts the tables in tables: a form has as
-- many at most as its fields nest.
--
-- Not modelled: the other policies that `_validate_saved_stage` calls (the record `Checks` has all
-- of them as tests, which fail where the policy raises one of the errors that activation catches;
-- another error ends activation, and is outside of the model), the version-1 action contract (a
-- call on such a task ends in `versioned`), the checks of permissions, the execution of system
-- actions, what the automatic runtime does for an action, `create_request` for an order (a call of
-- the record `OrderSite`), the making of a new order, and the documents that a task leaves (calls of
-- the record `Site`), the answers of other modules to the start and to drafts (the records `Office`
-- and `Desk`) and to the questions of access (the record `Realm`), the notices of directives, and
-- what only displays rows.
pub mod Prelude
pub mod Python
pub mod Workflow
pub mod Request
pub mod Access
pub mod Directive
pub mod Form
pub mod Leave
pub mod Personnel
pub mod Calendar
