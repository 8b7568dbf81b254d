-- ===== src/Tests.antt =====
-- Concrete platforms, tests and instances of the theorems.
mod Store
mod StoreLaws
mod Sample
mod Memberships
mod Runs
mod OauthExamples
mod UserInfoExamples
mod AccountExamples
mod ClientExamples
mod SecretExamples
mod GrantExamples
mod ApiRuns
mod Undrawn
mod TraceExamples
mod SessionExamples
mod SurfaceExamples
mod ApiExamples
