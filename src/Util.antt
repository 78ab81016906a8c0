-- ===== src/Util.antt =====
-- util/strings/strings.go, store/registry/registry.go and ptr/ptr.go: lists of strings, the models that
-- are migrated, and pointers.
pub mod Lists
pub mod Registry
mod Examples
