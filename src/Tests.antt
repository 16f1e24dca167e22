-- ===== src/Tests.antt =====
-- The theorems at concrete inputs, on the platform of Sample.antt.
mod CleanTests
mod HttpfileTests
mod PreviewTests
mod OsdTests
mod RabbitmqTests
mod TrackerTests
mod ColorTests
mod MasterTests
mod MasterTableTests
mod MasterWatchTests
mod SlaveTests
mod PipelineTests
mod PacketsTests
mod ShareTests
