-- ===== src/Generated.antt =====
-- pkg/generated and the generated part of pkg/apis: code that the generators of Kubernetes made and the
-- repository keeps.
pub mod Informers
pub mod DeepCopy
pub mod Listers
pub mod Clientset
