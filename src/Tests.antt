-- ===== src/Tests.antt =====
-- Runs of the definitions at concrete inputs, and each theorem at an input that meets its hypotheses.
mod RouterRuns
mod RouterLaws
mod LimitLaws
mod CoreLaws
mod FilterLaws
mod ServiceLaws
mod BucketLaws
mod RouteLaws
mod PoolLaws
mod UtilLaws
mod SharedLaws
mod TableLaws
mod CrudLaws
mod EtagLaws
mod SecurityLaws
mod ValueLaws
