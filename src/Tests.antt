-- ===== src/Tests.antt =====
-- The theorems at concrete inputs, and runs of the models.
mod ProtoRuns
mod ReplayRuns
mod ServerRuns
mod ModuleRuns
mod ArchiveRuns
mod PipelineRuns
mod RelayRuns
mod MonitorRuns
mod PacketsRuns
mod ImageRuns
mod HttpRuns
mod ListenRuns
mod VmuRuns
mod FilesRuns
mod ToolsRuns
mod ScienceRuns
mod StorageRuns
mod NotifierRuns
