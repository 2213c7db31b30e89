-- ===== src/Examples.antt =====
-- The theorems at concrete inputs, and tests of the definitions.
pub mod Nodes
pub mod Health
pub mod Certificates
pub mod Agents
pub mod Servers
pub mod Containers
pub mod ContainerStarts
pub mod Starts
pub mod Clusters
pub mod VaultClusters
pub mod Replacements
pub mod CombinedClusters
pub mod Interleavings
pub mod Programs
pub mod YurtRunCluster
pub mod Binaries
pub mod LocalBuild
pub mod Environments
