-- ===== src/Select.antt =====
-- pkg/select_plan.go: which SELECT statements the proxy takes, and the plan that it makes of one.
-- Filter has `scalarFilter`, Vector has `extractVector`, Plan has `planSelect`, and Run has
-- `handleSelect` of pkg/select.go.
pub mod Filter
pub mod Vector
pub mod Plan
pub mod Run
